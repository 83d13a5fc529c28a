-- ===== src/Worker/Calendar/Trigger/Spec.antt =====
-- What the conditions of a rule mean, stated without the loops that test them.
use jeffrey_s_agenda_tool.Prelude.{
  Text, text_eq, text_eq_iff, contains, contains_sound, contains-append, is_empty, true, false,
  ◌&&◌, ◌≡◌, ◌≢◌, ◌↔◌, ◌⊎◌, inl, inr, refl, List, [], ◌∷◌, ◌++◌, any, Any, Any-of_any, any_of_Any,
  Bool-cases, arith,
}
use jeffrey_s_agenda_tool.Domain.{TriggerConditions}
use jeffrey_s_agenda_tool.Worker.Calendar.Trigger.{summary_matches, place_matches, location_matches}

-- t stands somewhere in s.
abbrev pub Occurs : Text → Text → Type 0
Occurs t s = (before : Text) × (after : Text) × (s ≡ before ++ (t ++ after))

pub contains_of_Occurs : (t s : Text) → Occurs t s → contains s t ≡ true
contains_of_Occurs t s (before, after, e) = rw e (contains-append before t after)

-- The summary is the one asked for, or holds one of the words.
abbrev pub SummaryFires : TriggerConditions → Text → Type 0
SummaryFires trigger summary =
    ((trigger.summary_equals ≢ []) × (summary ≡ trigger.summary_equals))
    ⊎ Any (λ word. Occurs word summary) trigger.summary_contains

-- No place is asked for, or the event's place holds one of them, up to case.
abbrev pub PlaceFires : (Text → Text) → List Text → Text → Type 0
PlaceFires lower places location =
    (places ≡ []) ⊎ Any (λ place. Occurs (lower place) (lower location)) places

words_fire :
    (words : List Text) (summary : Text)
    → any (λ c. contains summary c) words ≡ true
    → Any (λ word. Occurs word summary) words
words_fire words summary =
    Any-of_any (λ word. Occurs word summary) (λ c. contains summary c)
      (λ word. contains_sound summary word) words

fire_words :
    (words : List Text) (summary : Text)
    → Any (λ word. Occurs word summary) words
    → any (λ c. contains summary c) words ≡ true
fire_words words summary =
    any_of_Any (λ word. Occurs word summary) (λ c. contains summary c)
      (λ word. contains_of_Occurs word summary) words

is_empty-false : (t : Text) → is_empty t ≡ false → t ≢ []
unfolding is_empty
is_empty-false [] h = cc
is_empty-false (a ∷ t) h = cc

not-empty : (t : Text) → t ≢ [] → is_empty t ≡ false
unfolding is_empty
not-empty [] h = absurd (h refl)
not-empty (a ∷ t) h = refl

pub summary_matches_sound :
    (trigger : TriggerConditions) (summary : Text)
    → summary_matches trigger summary ≡ true
    → SummaryFires trigger summary
unfolding summary_matches
summary_matches_sound trigger summary h = elim (Bool-cases (is_empty trigger.summary_equals)) [
  | inl e ↦ inr (words_fire trigger.summary_contains summary (rw e at h))
  | inr e ↦ elim (Bool-cases (text_eq summary trigger.summary_equals)) [
    | inl q ↦
        inl (
          is_empty-false trigger.summary_equals e,
          (text_eq_iff summary trigger.summary_equals).0 q,
        )
    | inr q ↦ inr (words_fire trigger.summary_contains summary (rw q at (rw e at h)))
  ]
]

pub summary_matches_complete :
    (trigger : TriggerConditions) (summary : Text)
    → SummaryFires trigger summary
    → summary_matches trigger summary ≡ true
unfolding summary_matches
summary_matches_complete trigger summary (inl (some_text, e)) =
    rw
      (not-empty trigger.summary_equals some_text, (text_eq_iff summary trigger.summary_equals).1 e)
summary_matches_complete trigger summary (inr h) =
    ground (arith, fire_words trigger.summary_contains summary h)

place_matches_sound :
    (lower : Text → Text) (places : List Text) (location : Text)
    → place_matches lower places location ≡ true
    → PlaceFires lower places location
unfolding place_matches
place_matches_sound lower [] location h = inl refl
place_matches_sound lower (p ∷ ps) location h = inr (
    Any-of_any (λ place. Occurs (lower place) (lower location))
      (λ place. contains (lower location) (lower place))
      (λ place. contains_sound (lower location) (lower place)) (p ∷ ps) h)

place_matches_complete :
    (lower : Text → Text) (places : List Text) (location : Text)
    → PlaceFires lower places location
    → place_matches lower places location ≡ true
unfolding place_matches
place_matches_complete lower [] location h = refl
place_matches_complete lower (p ∷ ps) location (inl e) = cc
place_matches_complete lower (p ∷ ps) location (inr h) =
    any_of_Any (λ place. Occurs (lower place) (lower location))
      (λ place. contains (lower location) (lower place))
      (λ place. contains_of_Occurs (lower place) (lower location)) (p ∷ ps) h

-- The tests pass exactly if the summary equals the one asked for, which is not empty, or holds one
-- of the words asked for, and if no place is asked for or the event's place holds one of them up to
-- case.
pub trigger_iff :
    (lower : Text → Text) (trigger : TriggerConditions) (summary location : Text)
    → ((summary_matches trigger summary && location_matches lower trigger location) ≡ true)
      ↔ (SummaryFires trigger summary × PlaceFires lower trigger.location_contains location)
unfolding location_matches
trigger_iff lower trigger summary location = (
  λ h. (
    summary_matches_sound trigger summary (ground arith),
    place_matches_sound lower trigger.location_contains location (ground arith),
  ),
  λ (s, p). ground (
    arith,
    summary_matches_complete trigger summary s,
    place_matches_complete lower trigger.location_contains location p,
  ),
)
