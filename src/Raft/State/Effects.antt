-- ===== src/Raft/State/Effects.antt =====
-- raft/raft.go: what can be read off the effects of a call.
use k8_p2p_failover_poc.Prelude.{
  ℕ, ◌≡◌, refl, ap, Bool, true, false, List, [], ◌∷◌, ◌++◌, map, String, ◌∙◌,
}
use k8_p2p_failover_poc.Kube.Resources.{KubeCmd}
use k8_p2p_failover_poc.Raft.State.{
  Effect, to_cluster, reply, close_done, send_new_term, send_new_leader, request,
}

-- The commands that are handed to the local cluster, in order.
unfoldable pub written : List Effect → List KubeCmd
written [] = []
written (to_cluster c ∷ es) = c ∷ written es
written (reply b ∷ es) = written es
written (close_done ∷ es) = written es
written (send_new_term ∷ es) = written es
written (send_new_leader a ∷ es) = written es
written (request a b t ∷ es) = written es

-- The caller is answered.
unfoldable pub has_reply : List Effect → Bool
has_reply [] = false
has_reply (reply b ∷ es) = true
has_reply (to_cluster c ∷ es) = has_reply es
has_reply (close_done ∷ es) = has_reply es
has_reply (send_new_term ∷ es) = has_reply es
has_reply (send_new_leader a ∷ es) = has_reply es
has_reply (request a b t ∷ es) = has_reply es

pub written-append : (es bs : List Effect) → written (es ++ bs) ≡ written es ++ written bs
unfolding written
written-append [] bs = refl
written-append (to_cluster c ∷ es) bs = ap (λ l. c ∷ l) (written-append es bs)
written-append (reply b ∷ es) bs = written-append es bs
written-append (close_done ∷ es) bs = written-append es bs
written-append (send_new_term ∷ es) bs = written-append es bs
written-append (send_new_leader a ∷ es) bs = written-append es bs
written-append (request a b t ∷ es) bs = written-append es bs

pub has_reply-append_reply : (es : List Effect) (b : List ℕ) → has_reply (es ++ reply b ∷ []) ≡ true
unfolding has_reply
has_reply-append_reply [] b = refl
has_reply-append_reply (to_cluster c ∷ es) b = has_reply-append_reply es b
has_reply-append_reply (reply a ∷ es) b = refl
has_reply-append_reply (close_done ∷ es) b = has_reply-append_reply es b
has_reply-append_reply (send_new_term ∷ es) b = has_reply-append_reply es b
has_reply-append_reply (send_new_leader a ∷ es) b = has_reply-append_reply es b
has_reply-append_reply (request a c t ∷ es) b = has_reply-append_reply es b

-- Calls that write nothing, one for each entry of a list.
pub written-map :
    (f : String → Effect) (l : List String)
    → ((a : String) → written (f a ∷ []) ≡ [])
    → written (map f l) ≡ []
unfolding written
written-map f [] h = refl
written-map f (a ∷ l) h = written-append (f a ∷ []) (map f l) ∙ rw (h a, written-map f l h) refl
