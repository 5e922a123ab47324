-- ===== src/Sched/Stream/Linked.antt =====
-- SocketScheduler.h, `send`: one more send behind the others.
use coproto.Prelude.{◌≡◌, refl, sym, ap, ◌∙◌, List, [], ◌∷◌, ◌++◌}
use coproto.Sched.State.{SendOp, Sched}
use coproto.Sched.Send.{current_send, offered}
use coproto.Sched.Stream.{messages, message_of, frames, forks_after}
use coproto.Sched.Stream.Frames.{frames-append, forks_after-append, messages-append}
use coproto.Sched.Stream.Writes.{forks_then, Writing}

-- The scheduler with one more send behind its first.
abbrev pub linked : Sched → SendOp → List SendOp → SendOp → Sched
linked s first rest op = record s { sends = first ∷ (rest ++ (op ∷ [])) }

pub messages-linked :
    (s : Sched) (first : SendOp) (rest : List SendOp) (op : SendOp)
    → s.sends ≡ first ∷ rest
    → messages (linked s first rest op).sends ≡ messages s.sends ++ (message_of op ∷ [])
messages-linked s first rest op p =
    messages-append (first ∷ rest) op ∙ ap (λ ops. messages ops ++ (message_of op ∷ [])) (sym p)

pub frames-linked :
    (s : Sched) (first : SendOp) (rest : List SendOp) (op : SendOp)
    → s.sends ≡ first ∷ rest
    → (frames s.forks (messages (linked s first rest op).sends)
        ≡ frames s.forks (messages s.sends) ++ frames (forks_then s) (message_of op ∷ []))
      × (forks_then (linked s first rest op) ≡ forks_after (forks_then s) (message_of op ∷ []))
frames-linked s first rest op p =
    let m = messages-linked s first rest op p in
    (
      ap (frames s.forks) m ∙ frames-append s.forks (messages s.sends) (message_of op ∷ []),
      ap (forks_after s.forks) m
          ∙ forks_after-append s.forks (messages s.sends) (message_of op ∷ []),
    )

-- The first send is the same.
pub current_send-linked :
    (s : Sched) (first : SendOp) (rest : List SendOp) (op : SendOp)
    → s.sends ≡ first ∷ rest
    → (current_send (linked s first rest op) ≡ current_send s)
      × (offered (linked s first rest op) ≡ offered s)
unfolding current_send offered
current_send-linked s first rest op p = (rw p refl, rw p refl)

pub Writing-linked :
    (s : Sched) (first : SendOp) (rest : List SendOp) (op : SendOp)
    → s.sends ≡ first ∷ rest
    → Writing s
    → Writing (linked s first rest op)
Writing-linked s first rest op p (o, f, c, n) =
    (o, f, (current_send-linked s first rest op p).0 ∙ c, n)
