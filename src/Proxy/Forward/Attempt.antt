-- ===== src/Proxy/Forward/Attempt.antt =====
-- proxy/proxy.go: one round of the loop of `forwardToCluster`: the goroutine that asks a cluster node,
-- and the `select` that waits for it, as they interleave.
use k8_p2p_failover_poc.Prelude.{ℕ, ◌≡◌, ◌≢◌, refl, Bool, true, false, List, arith}

-- Where the goroutine is: in one of its three calls on the connection, or at a send on its channel
-- `failure` or `kubResp`; or it has ended.
pub data Worker : Type 0 where
  connecting failing : Worker
  answering : List ℕ → Worker
  returned panicked : Worker

-- The caller waits in its `select`, or has returned an answer or an error.
pub data Caller : Type 0 where
  selecting : Caller
  answered : List ℕ → Caller
  failed : Caller

-- `resp_closed` is whether `kubResp` is closed.
pub record Attempt : Type 0 where
  pub worker : Worker
  pub caller : Caller
  pub resp_closed : Bool

unfoldable pub start_attempt : Attempt
start_attempt = record { worker = connecting; caller = selecting; resp_closed = false }

-- The case of `failure`, at which the goroutine returns.
unfoldable pub receive_failure : Attempt → Attempt
receive_failure a = record a { worker = returned; caller = failed; resp_closed = true }

-- The case of `time.After`.
unfoldable pub time_out : Attempt → Attempt
time_out a = record a { caller = failed; resp_closed = true }

-- The case of `kubResp`.
unfoldable pub receive_answer : Attempt → List ℕ → Attempt
receive_answer a bytes = record a { worker = returned; caller = answered bytes }

-- A send on a channel that is closed panics.
unfoldable pub send_answer_closed : Attempt → Attempt
send_answer_closed a = record a { worker = panicked }

-- What the goroutine and its caller can do next.
pub data Step (a : Attempt) : Attempt → Type 0 where
  fails : a.worker ≡ connecting → Step a (record a { worker = failing })
  answers :
      (bytes : List ℕ) → a.worker ≡ connecting → Step a (record a { worker = answering bytes })
  receives_failure : a.worker ≡ failing → a.caller ≡ selecting → Step a (receive_failure a)
  times_out : a.caller ≡ selecting → Step a (time_out a)
  receives_answer :
      (bytes : List ℕ)
      → a.worker ≡ answering bytes
      → a.caller ≡ selecting
      → Step a (receive_answer a bytes)
  sends_closed :
      (bytes : List ℕ)
      → a.worker ≡ answering bytes
      → a.resp_closed ≡ true
      → Step a (send_answer_closed a)

pub data Reach : Attempt → Type 0 where
  starts : Reach start_attempt
  next : {a b : Attempt} → Reach a → Step a b → Reach b

-- The channel is closed exactly when an error has been returned, and nothing is left of the goroutine
-- when an answer has.
record IsAttempt (a : Attempt) : Type 0 where
  unsettled : a.caller ≡ selecting → (a.resp_closed ≡ false) × (a.worker ≢ panicked)
  done : (bytes : List ℕ) → a.caller ≡ answered bytes → a.worker ≡ returned
  shut : a.caller ≡ failed → a.resp_closed ≡ true

Step-IsAttempt : {a b : Attempt} → IsAttempt a → Step a b → IsAttempt b
unfolding receive_failure time_out receive_answer send_answer_closed
Step-IsAttempt inv (fails c) = record {
  unsettled = λ s. ((inv.unsettled s).0, ground arith);
  done = λ bytes e. absurd (ground (arith, inv.done bytes e, c));
  shut = inv.shut;
}
Step-IsAttempt inv (answers resp c) = record {
  unsettled = λ s. ((inv.unsettled s).0, ground arith);
  done = λ bytes e. absurd (ground (arith, inv.done bytes e, c));
  shut = inv.shut;
}
Step-IsAttempt inv (receives_failure c s) = record {
  unsettled = λ e. absurd (ground (arith, e));
  done = λ bytes e. refl;
  shut = λ e. refl;
}
Step-IsAttempt inv (times_out s) = record {
  unsettled = λ e. absurd (ground (arith, e));
  done = λ bytes e. absurd (ground (arith, e));
  shut = λ e. refl;
}
Step-IsAttempt inv (receives_answer resp c s) = record {
  unsettled = λ e. absurd (ground (arith, e));
  done = λ bytes e. refl;
  shut = λ e. absurd (ground (arith, e));
}
Step-IsAttempt inv (sends_closed resp c shut) = record {
  unsettled = λ s. absurd (ground (arith, (inv.unsettled s).0, shut));
  done = λ bytes e. absurd (ground (arith, inv.done bytes e, c));
  shut = λ e. shut;
}

Reach-IsAttempt : {a : Attempt} → Reach a → IsAttempt a
unfolding start_attempt
Reach-IsAttempt starts = record {
  unsettled = λ s. (refl, ground arith);
  done = λ bytes e. absurd (ground (arith, e));
  shut = λ e. absurd (ground (arith, e));
}
Reach-IsAttempt (next r s) = Step-IsAttempt (Reach-IsAttempt r) s

-- Once the caller has given up, a goroutine that has an answer can only panic.
Step-panicked :
    {a b : Attempt} (bytes : List ℕ)
    → a.caller ≡ failed
    → a.worker ≡ answering bytes
    → Step a b
    → (b.worker ≡ panicked) × (b.caller ≡ failed)
unfolding send_answer_closed
Step-panicked bytes f w (fails c) = absurd (ground (arith, w, c))
Step-panicked bytes f w (answers resp c) = absurd (ground (arith, w, c))
Step-panicked bytes f w (receives_failure c s) = absurd (ground (arith, f, s))
Step-panicked bytes f w (times_out s) = absurd (ground (arith, f, s))
Step-panicked bytes f w (receives_answer resp c s) = absurd (ground (arith, f, s))
Step-panicked bytes f w (sends_closed resp c shut) = (refl, f)

-- Whenever the caller has given up on a goroutine that still waits for its cluster node, an answer of
-- the node is followed by a panic of the process, whatever it holds: the goroutine can send it on the
-- closed channel, which panics, and nothing else can happen in the attempt before that. The caller has
-- returned an error by then.
pub late_answer-panicked :
    {a : Attempt} (bytes : List ℕ)
    → Reach a
    → a.caller ≡ failed
    → a.worker ≡ connecting
    → let sent = record a { worker = answering bytes } in
      Step a sent
      × Step sent (send_answer_closed sent)
      × ((b : Attempt) → Step sent b → (b.worker ≡ panicked) × (b.caller ≡ failed))
late_answer-panicked {a} bytes r f c = (
  answers bytes c,
  sends_closed bytes refl ((Reach-IsAttempt r).shut f),
  λ b s. Step-panicked bytes f refl s,
)
