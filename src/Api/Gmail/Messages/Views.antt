-- ===== src/Api/Gmail/Messages/Views.antt =====
-- internal/api/gmail/gmail.go: what HandleGetGmailMessages writes of the messages that are listed.
use jeffrey_s_agenda_tool.Prelude.{
  ◌≤◌, Text, ℤ, pos, negsuc, parse_int, Option, none, some, List, [], ◌∷◌, ◌++◌, ◌≡◌, refl, arith,
}
use jeffrey_s_agenda_tool.Google.{Token, Message, Part}
use jeffrey_s_agenda_tool.Action.{Env, World}
use jeffrey_s_agenda_tool.Action.Ensures.{
  Satisfies, Ensures, Ensures-pure, Ensures-crash, Ensures-any, Ensures-attempt, Ensures-bind,
}
use jeffrey_s_agenda_tool.Api.{MessageView}
use jeffrey_s_agenda_tool.Api.Gmail.Messages.{
  bounded, max_results_of, view_of, transform, transform_entry, transform_messages,
}

bounded_bounds : (n : Option ℤ) → (1 ≤ bounded n) × (bounded n ≤ 500)
unfolding bounded
bounded_bounds none = omega arith
bounded_bounds (some (pos n)) = ground arith
bounded_bounds (some (negsuc n)) = omega arith

-- Whatever the parameter maxResults of the URL is, from 1 to 500 messages are asked for.
pub max_results_of_bounds : (t : Text) → (1 ≤ max_results_of t) × (max_results_of t ≤ 500)
unfolding max_results_of
max_results_of_bounds t = ground (arith, bounded_bounds (parse_int t))

-- The view of an entry of the list.
abbrev pub Shows : Message → MessageView → Type 0
Shows entry v = (v.id ≡ entry.id) × (v.thread_id ≡ entry.thread_id) × (v.labels ≡ entry.label_ids)

-- The views are those of some of the entries, in their order, each at most once.
pub data Selects : List Message → List MessageView → Type 0 where
  done : Selects [] []
  skip :
      {e : Message} {es : List Message} {vs : List MessageView}
      → Selects es vs
      → Selects (e ∷ es) vs
  show :
      {e : Message} {es : List Message} {v : MessageView} {vs : List MessageView}
      → Shows e v
      → Selects es vs
      → Selects (e ∷ es) (v ∷ vs)

-- At most one view, which is that of the entry.
abbrev IsViewOf : Message → List MessageView → Type 0
IsViewOf entry [] = Unit
IsViewOf entry (v ∷ []) = Shows entry v
IsViewOf entry (v ∷ u ∷ vs) = ⊥

Selects-append :
    (entry : Message) (entries : List Message) (vs ws : List MessageView)
    → IsViewOf entry vs
    → Selects entries ws
    → Selects (entry ∷ entries) (vs ++ ws)
Selects-append entry entries [] ws h s = skip s
Selects-append entry entries (v ∷ []) ws h s = show h s
Selects-append entry entries (v ∷ u ∷ vs) ws h s = elim h [ ]

module _ (env : Env) where
  transform-Shows :
      (entry m : Message) (p : Option Part) → Ensures (IsViewOf entry) (transform env entry m p)
  unfolding transform view_of
  transform-Shows entry m none = Ensures-crash _
  transform-Shows entry m (some p) = Ensures-bind _ _ _ (Ensures-any _) λ synced a.
      Ensures-bind _ _ _ (Ensures-any _) λ created b.
        Ensures-bind _ _ _ (Ensures-any _) λ updated c. Ensures-pure _ _ (refl, refl, refl)

  module _ (token : Token) where
    transform_entry-Shows :
        (entry : Message) → Ensures (IsViewOf entry) (transform_entry env token entry)
    unfolding transform_entry
    transform_entry-Shows entry =
        Ensures-attempt _ _ _ _ (Ensures-any _)
          (λ e.
            Ensures-attempt _ _ _ _ (Ensures-any _) (λ e'. Ensures-pure _ [] tt)
              (λ m h. transform-Shows entry m m.payload))
          (λ m h. transform-Shows entry m m.payload)

    select_messages :
        (entries : List Message) → Ensures (Selects entries) (transform_messages env token entries)
    unfolding transform_messages
    select_messages [] = Ensures-pure _ [] done
    select_messages (entry ∷ entries) =
        Ensures-bind _ _ _ (transform_entry-Shows entry) λ views own.
          Ensures-bind _ _ _ (select_messages entries)
            λ later s. Ensures-pure _ _ (Selects-append entry entries views later own s)

-- The messages that are written are some of the messages of the list, in its order, each at most
-- once, with their ids, threads and labels.
pub transform_messages-Selects :
    (env : Env) (token : Token) (entries : List Message) (w : World)
    → Satisfies (Selects entries) (transform_messages env token entries w).0
transform_messages-Selects env token entries w = (select_messages env token entries).at w
