-- ===== src/Action/Adds.antt =====
-- Actions that send at most one request, which may depend on the world in which they start.
use jeffrey_s_agenda_tool.Prelude.{
  ℕ, Bool, true, false, List, [], ◌∷◌, ◌++◌, ◌≡◌, refl, ap, ◌∙◌, ◌⊎◌, inl, inr, All, if◌then◌else◌,
}
use jeffrey_s_agenda_tool.Database.{Err, Result, ok, err, panic}
use jeffrey_s_agenda_tool.Google.{Reply, answer, failed, Request}
use jeffrey_s_agenda_tool.Action.{World, Action, crash, receive, continue, attempt, send}
use jeffrey_s_agenda_tool.Action.Sends.{Sends}

-- No request, or one more, of which P holds.
abbrev pub AtMostOne : (Request → Type 0) → World → World → Type 0
AtMostOne P w w' =
    (w'.requests ≡ w.requests) ⊎ ((q : Request) × (w'.requests ≡ q ∷ w.requests) × P q)

-- What the action adds when it starts in w.
pub record Adds {A : Type 0} (P : Request → Type 0) (m : Action A) (w : World) : Type 0 where
  pub at : AtMostOne P w (m w).1

abbrev pub Quiet : {A : Type 0} → Action A → Type 0
Quiet m = Sends (λ q. ⊥) m

no_requests : (new : List Request) → All (λ q. ⊥) new → new ≡ []
no_requests [] h = refl
no_requests (q ∷ new) h = elim h.0 [ ]

pub Quiet-requests :
    {A : Type 0} (m : Action A) (w : World) → Quiet m → (m w).1.requests ≡ w.requests
Quiet-requests m w quiet =
    let (new, e, none_sent) = quiet.at w in
    e ∙ ap (λ r. r ++ w.requests) (no_requests new none_sent)

module _ {P : Request → Type 0} where
  pub Adds-Quiet : {A : Type 0} (m : Action A) (w : World) → Quiet m → Adds P m w
  Adds-Quiet m w quiet = record { at = inl (Quiet-requests m w quiet) }

  -- What was added since v was added since a world with the same requests.
  since : (w v u : World) → v.requests ≡ w.requests → AtMostOne P v u → AtMostOne P w u
  since w v u same (inl e) = inl (e ∙ same)
  since w v u same (inr (q, e, h)) = inr (q, e ∙ ap (λ r. q ∷ r) same, h)

  module _ {A B : Type 0} where
    continued :
        (r : Result A) (h : Err → Action B) (k : A → Action B) (w : World)
        → ((e : Err) → Quiet (h e))
        → ((a : A) → r ≡ ok a → Adds P (k a) w)
        → AtMostOne P w (continue r h k w).1
    unfolding continue crash
    continued (ok a) h k w quiet adds = (adds a refl).at
    continued (err e) h k w quiet adds = inl (Quiet-requests (h e) w (quiet e))
    continued panic h k w quiet adds = inl refl

    -- A call that sends nothing comes before.
    pub Adds-attempt :
        (m : Action A) (h : Err → Action B) (k : A → Action B) (w : World)
        → Quiet m
        → ((e : Err) → Quiet (h e))
        → ((a : A) → (m w).0 ≡ ok a → Adds P (k a) (m w).1)
        → Adds P (attempt m h k) w
    unfolding attempt
    Adds-attempt m h k w quiet quiet_h adds = record {
      at =
          since w (m w).1 (continue (m w).0 h k (m w).1).1 (Quiet-requests m w quiet)
            (continued (m w).0 h k (m w).1 quiet_h adds);
    }

    sent :
        (r : Reply A) (q : Request) (h : Err → Action B) (k : A → Action B) (w v : World)
        → v.requests ≡ q ∷ w.requests
        → P q
        → ((e : Err) → Quiet (h e))
        → ((a : A) → Quiet (k a))
        → AtMostOne P w (continue (receive r v).0 h k (receive r v).1).1
    unfolding continue receive
    sent (answer a) q h k w v e holds quiet_h quiet_k =
        inr (q, Quiet-requests (k a) _ (quiet_k a) ∙ e, holds)
    sent (failed t) q h k w v e holds quiet_h quiet_k =
        inr (q, Quiet-requests (h _) _ (quiet_h _) ∙ e, holds)

    -- The one request is sent, and nothing after it.
    pub Adds-send :
        (q : Request) (reply : ℕ → Reply A) (h : Err → Action B) (k : A → Action B) (w : World)
        → P q
        → ((e : Err) → Quiet (h e))
        → ((a : A) → Quiet (k a))
        → Adds P (attempt (send q reply) h k) w
    unfolding attempt send
    Adds-send q reply h k w holds quiet_h quiet_k = record {
      at =
          sent (reply w.tick) q h k w (record w { requests = q ∷ w.requests }) refl holds quiet_h
            quiet_k;
    }

  pub Adds-if :
      {A : Type 0} (b : Bool) (m n : Action A) (w : World)
      → Quiet m
      → Adds P n w
      → Adds P (if b then m else n) w
  Adds-if true m n w quiet adds = Adds-Quiet m w quiet
  Adds-if false m n w quiet adds = adds
