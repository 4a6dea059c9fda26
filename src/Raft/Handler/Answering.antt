-- ===== src/Raft/Handler/Answering.antt =====
-- network/network.go and raft/raft.go: a request, for which `handleRequest` waits, while its handler goes
-- through its effects. `sendEncodedReply` sends on the channel `Done` in a goroutine of its own, so that
-- the handler goes on; the channel has no buffer, so that the send needs the `select` to be there. What
-- else the handler may have to wait for is left open, and no case of `handleRpc` both answers and closes.
pub mod Late
use k8_p2p_failover_poc.Prelude.{◌≡◌, Bool, true, false, List, [], ◌∷◌, ◌++◌, ℕ}
use k8_p2p_failover_poc.Raft.State.{
  Effect, to_cluster, reply, close_done, send_new_term, send_new_leader, request,
}

-- Where `handleRequest` is: in its `select`, or behind it with what it has written, or behind its timeout.
pub data Socket : Type 0 where
  selecting : Socket
  wrote : List ℕ → Socket
  gave_up : Socket

-- The handler's effects that are still to come, those that are done, and the answers whose goroutines
-- wait to send them.
pub record Exchange : Type 0 where
  pub socket : Socket
  pub waiting : List (List ℕ)
  pub left : List Effect
  pub done : List Effect

abbrev pub fresh : List Effect → Exchange
fresh es = record { socket = selecting; waiting = []; left = es; done = [] }

-- A receive from a channel that is closed gives no bytes.
unfoldable pub after_close : Socket → Socket
after_close selecting = wrote []
after_close (wrote b) = wrote b
after_close gave_up = gave_up

abbrev pub is_for_socket : Effect → Bool
is_for_socket (reply b) = true
is_for_socket close_done = true
is_for_socket _ = false

-- The goroutine of `sendEncodedReply` begins.
unfoldable pub begin_reply : Exchange → List ℕ → List Effect → Exchange
begin_reply s b es = record s {
  waiting = s.waiting ++ b ∷ [];
  left = es;
  done = s.done ++ reply b ∷ [];
}

abbrev pub does : Exchange → Socket → Effect → List Effect → Exchange
does s socket e es = record s { socket = socket; left = es; done = s.done ++ e ∷ [] }

pub data Step (s : Exchange) : Exchange → Type 0 where
  times_out : s.socket ≡ selecting → Step s (record s { socket = gave_up })
  replies : (b : List ℕ) (es : List Effect) → s.left ≡ reply b ∷ es → Step s (begin_reply s b es)
  sends :
      (before after : List (List ℕ)) (b : List ℕ)
      → s.waiting ≡ before ++ b ∷ after
      → s.socket ≡ selecting
      → Step s (record s { socket = wrote b; waiting = before ++ after })
  closes :
      (es : List Effect)
      → s.left ≡ close_done ∷ es
      → Step s (does s (after_close s.socket) close_done es)
  acts :
      (e : Effect) (es : List Effect)
      → s.left ≡ e ∷ es
      → is_for_socket e ≡ false
      → Step s (does s s.socket e es)

pub data Reach (s : Exchange) : Exchange → Type 0 where
  here : Reach s s
  next : {t u : Exchange} → Reach s t → Step t u → Reach s u

-- The answers among effects.
abbrev pub answers_of : List Effect → List (List ℕ)
answers_of [] = []
answers_of (reply b ∷ es) = b ∷ answers_of es
answers_of (_ ∷ es) = answers_of es
