-- ===== src/Traffic/Message.antt =====
-- scripts/sim_traffic.go: `parseServerMsgValues` reads what the server writes.
use k8_p2p_failover_poc.Prelude.{
  ◌≡◌, ◌≢◌, refl, sym, ℕ, some, List, [], ◌∷◌, ◌++◌, All, All-append, arith,
}
use k8_p2p_failover_poc.Traffic.{
  Text, text, split, trim_left, trim_right, trim_space, tuple_values, parse_server_msg_values,
}

abbrev pub Lacks : ℕ → Text → Type 0
Lacks sep = All (λ c. c ≢ sep)

split-ne : (s : Text) (sep : ℕ) → split s sep ≢ []
unfolding split
split-ne [] sep = cc
split-ne (c ∷ s) sep = ground (arith, split-ne s sep)

pub split-append : (p s : Text) (sep : ℕ) → Lacks sep p → split (p ++ sep ∷ s) sep ≡ p ∷ split s sep
unfolding split
split-append [] s sep h = ground (arith, split-ne s sep)
split-append (c ∷ p) s sep h = ground (arith, h, split-append p s sep h.1)

pub split-Lacks : (p : Text) (sep : ℕ) → Lacks sep p → split p sep ≡ p ∷ []
unfolding split
split-Lacks [] sep h = refl
split-Lacks (c ∷ p) sep h = ground (arith, split-Lacks p sep h.1)

-- No blank at either end.
abbrev pub IsTrimmed : Text → Type 0
IsTrimmed s = (trim_left s ≡ s) × (trim_right s ≡ s)

trim_right-blank : (s : Text) → trim_right s ≡ s → trim_right (s ++ b' ' ∷ []) ≡ s
unfolding trim_right
trim_right-blank [] e = refl
trim_right-blank (c ∷ s) e = ground (arith, e, trim_right-blank s)

-- A blank on both sides.
abbrev padded : Text → Text
padded s = b' ' ∷ (s ++ b' ' ∷ [])

trim_space-padded : (s : Text) → IsTrimmed s → trim_space (padded s) ≡ s
unfolding trim_space trim_left trim_right
trim_space-padded s t = ground (arith, t.0, trim_right-blank s t.1)

-- `CLUSTER_ID: %s & HOSTNAME: %s `
abbrev pub server_message : Text → Text → Text
server_message id host =
    (text "CLUSTER_ID" ++ b':' ∷ padded id) ++ b'&' ∷ (text " HOSTNAME" ++ b':' ∷ padded host)

-- A value that can stand in a message.
abbrev pub IsValue : Text → Type 0
IsValue s = IsTrimmed s × Lacks b'&' s × Lacks b':' s

Lacks-padded : (sep : ℕ) (s : Text) → sep ≢ b' ' → Lacks sep s → Lacks sep (padded s)
Lacks-padded sep s n h = (λ e. n (sym e), All-append _ s (b' ' ∷ []) h (λ e. n (sym e), tt))

pair-Lacks :
    (key value : Text) → Lacks b'&' key → IsValue value → Lacks b'&' (key ++ b':' ∷ padded value)
pair-Lacks key value h v =
    All-append _ key (b':' ∷ padded value) h
      (omega arith, Lacks-padded b'&' value (omega arith) v.1)

pair-split :
    (key value : Text)
    → Lacks b':' key
    → IsValue value
    → split (key ++ b':' ∷ padded value) b':' ≡ key ∷ padded value ∷ []
pair-split key value h v =
    rw
      (
        split-append key (padded value) b':' h,
        split-Lacks (padded value) b':' (Lacks-padded b':' value (omega arith) v.2),
      )
      refl

pair-value :
    (key value : Text) (tuples res : List Text)
    → Lacks b':' key
    → IsValue value
    → tuple_values tuples ≡ some res
    → tuple_values ((key ++ b':' ∷ padded value) ∷ tuples) ≡ some (value ∷ res)
unfolding tuple_values
pair-value key value tuples res h v e =
    rw (tuple_values, pair-split key value h v, e, trim_space-padded value v.0) refl

-- The two values of a message of the server are read back, if they have no blank at either end and hold
-- neither `&` nor `:`.
pub parse_server_msg_values-server_message :
    (id host : Text)
    → IsValue id
    → IsValue host
    → parse_server_msg_values (server_message id host) ≡ some (id ∷ host ∷ [])
unfolding parse_server_msg_values tuple_values
parse_server_msg_values-server_message id host v u =
    rw
      (
        split-append (text "CLUSTER_ID" ++ b':' ∷ padded id)
            (text " HOSTNAME" ++ b':' ∷ padded host) b'&'
            (pair-Lacks (text "CLUSTER_ID") id (omega arith) v),
        split-Lacks (text " HOSTNAME" ++ b':' ∷ padded host) b'&'
            (pair-Lacks (text " HOSTNAME") host (omega arith) u),
      )
      (pair-value (text "CLUSTER_ID") id ((text " HOSTNAME" ++ b':' ∷ padded host) ∷ []) (host ∷ [])
        (omega arith) v (pair-value (text " HOSTNAME") host [] [] (omega arith) u refl))
