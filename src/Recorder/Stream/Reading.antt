-- ===== src/Recorder/Stream/Reading.antt =====
-- services/hikvision_service.py: what the full XML of `set_camera_resolution_async` shows when
-- `get_camera_resolution_async` reads it.
use atm_monitoring_agent.Prelude.{
  ◌≡◌, ◌≢◌, refl, sym, ap, ◌∙◌, inl, inr, Bool, true, false, ◌&&◌, Option, none, [], ◌∷◌, ◌++◌, All,
  arith, Option-cases,
}
use mathlib.Core.Option
use mathlib.Core.Path.{fun_ext}
use atm_monitoring_agent.ParserModels.{Text}
use atm_monitoring_agent.TextOps.{is_digit, upper}
use atm_monitoring_agent.Recorder.Element.{opening, closing}
use atm_monitoring_agent.Recorder.Element.Matching.{clash, NoAngle}
use atm_monitoring_agent.Recorder.Element.Skipping.{Apart}
use atm_monitoring_agent.Recorder.Element.Keeping.{find-replace, find-replace_own}
use atm_monitoring_agent.Recorder.Stream.{
  Tag, width, height, frame_rate, upper_cap, constant_rate, transport, tag_name, tag_class, reading,
}
use atm_monitoring_agent.Recorder.Stream.Writing.{write, write_present}

-- A match of one tag's pattern cannot begin where the other's does.
clashes : Tag → Tag → Bool
clashes t u =
    clash (opening (tag_name t)) (opening (tag_name u))
    && clash (opening (tag_name t)) (closing (tag_name u))

both_true : (a b : Bool) → (a && b) ≡ true → (a ≡ true) × (b ≡ true)
both_true a b h = ground arith

clashes_lem : (t u : Tag) → t ≢ u → clashes t u ≡ true
unfolding clashes tag_name upper
clashes_lem width width h = absurd (h refl)
clashes_lem width _ h = refl
clashes_lem height height h = absurd (h refl)
clashes_lem height _ h = refl
clashes_lem frame_rate frame_rate h = absurd (h refl)
clashes_lem frame_rate _ h = refl
clashes_lem upper_cap upper_cap h = absurd (h refl)
clashes_lem upper_cap _ h = refl
clashes_lem constant_rate constant_rate h = absurd (h refl)
clashes_lem constant_rate _ h = refl
clashes_lem transport transport h = absurd (h refl)
clashes_lem transport _ h = refl

clashes_split :
    (t u : Tag)
    → t ≢ u
    → (clash (opening (tag_name t)) (opening (tag_name u)) ≡ true)
      × (clash (opening (tag_name t)) (closing (tag_name u)) ≡ true)
unfolding clashes
clashes_split t u h = both_true _ _ (clashes_lem t u h)

closing-clash : (t u : Tag) → clash (closing (tag_name t)) (opening (tag_name u)) ≡ true
unfolding tag_name upper
closing-clash t width = refl
closing-clash t height = refl
closing-clash t frame_rate = refl
closing-clash t upper_cap = refl
closing-clash t constant_rate = refl
closing-clash t transport = refl

opening-clash : (t : Tag) → clash (opening (tag_name t)) (closing (tag_name t)) ≡ true
unfolding tag_name upper
opening-clash width = refl
opening-clash height = refl
opening-clash frame_rate = refl
opening-clash upper_cap = refl
opening-clash constant_rate = refl
opening-clash transport = refl

tag_name-NoAngle : (t : Tag) → NoAngle (tag_name t ++ 62 ∷ [])
unfolding tag_name
tag_name-NoAngle width = omega arith
tag_name-NoAngle height = omega arith
tag_name-NoAngle frame_rate = omega arith
tag_name-NoAngle upper_cap = omega arith
tag_name-NoAngle constant_rate = omega arith
tag_name-NoAngle transport = omega arith

tag_class-angle : (t : Tag) → tag_class t 60 ≡ false
unfolding tag_class is_digit
tag_class-angle transport = refl
tag_class-angle _ = refl

-- A value that a pattern matches in full.
pub record IsValue (t : Tag) (v : Text) : Type 0 where
  pub filled : v ≢ []
  pub in_class : All (λ c. tag_class t c ≡ true) v

All-NoAngle : (t : Tag) (v : Text) → All (λ c. tag_class t c ≡ true) v → NoAngle v
All-NoAngle t [] h = tt
All-NoAngle t (c ∷ v) h =
    (λ e. cc (h.0, tag_class-angle t, ap (tag_class t) e), All-NoAngle t v h.1)

reading-write_own :
    (t : Tag) (v xml : Text)
    → IsValue t v
    → reading (write t v xml) t ≡ Option.map (λ (old : Text). v) (reading xml t)
reading-write_own t v xml h =
    find-replace_own (tag_class t) (tag_name t) v (tag_class-angle t) (All-NoAngle t v h.in_class)
      (tag_name-NoAngle t) (opening-clash t) h.filled h.in_class xml

reading-write_other :
    (t u : Tag) (v xml : Text) → t ≢ u → IsValue t v → reading (write t v xml) u ≡ reading xml u
reading-write_other t u v xml differ h =
    find-replace (tag_class t) (tag_name t) v (tag_class-angle t) (All-NoAngle t v h.in_class)
      (tag_class u) (tag_name u) (tag_class-angle u) apart xml
  where
    apart : Apart (tag_name t) (tag_name u)
    apart = record {
      opened = (clashes_split t u differ).0;
      closed = closing-clash t u;
      ended = (clashes_split t u differ).1;
      plain = tag_name-NoAngle t;
      own = tag_name-NoAngle u;
    }

-- A reading with one value overwritten, if it is there.
abbrev pub overwrite : Tag → Text → (Tag → Option Text) → Tag → Option Text
overwrite width v shown width = Option.map (λ (old : Text). v) (shown width)
overwrite width v shown u = shown u
overwrite height v shown height = Option.map (λ (old : Text). v) (shown height)
overwrite height v shown u = shown u
overwrite frame_rate v shown frame_rate = Option.map (λ (old : Text). v) (shown frame_rate)
overwrite frame_rate v shown u = shown u
overwrite upper_cap v shown upper_cap = Option.map (λ (old : Text). v) (shown upper_cap)
overwrite upper_cap v shown u = shown u
overwrite constant_rate v shown constant_rate = Option.map (λ (old : Text). v) (shown constant_rate)
overwrite constant_rate v shown u = shown u
overwrite transport v shown transport = Option.map (λ (old : Text). v) (shown transport)
overwrite transport v shown u = shown u

reading-write_at :
    (t u : Tag) (v xml : Text)
    → IsValue t v
    → reading (write t v xml) u ≡ overwrite t v (reading xml) u
reading-write_at width width v xml h = reading-write_own width v xml h
reading-write_at width u v xml h = reading-write_other width u v xml (λ e. cc) h
reading-write_at height height v xml h = reading-write_own height v xml h
reading-write_at height u v xml h = reading-write_other height u v xml (λ e. cc) h
reading-write_at frame_rate frame_rate v xml h = reading-write_own frame_rate v xml h
reading-write_at frame_rate u v xml h = reading-write_other frame_rate u v xml (λ e. cc) h
reading-write_at upper_cap upper_cap v xml h = reading-write_own upper_cap v xml h
reading-write_at upper_cap u v xml h = reading-write_other upper_cap u v xml (λ e. cc) h
reading-write_at constant_rate constant_rate v xml h = reading-write_own constant_rate v xml h
reading-write_at constant_rate u v xml h = reading-write_other constant_rate u v xml (λ e. cc) h
reading-write_at transport transport v xml h = reading-write_own transport v xml h
reading-write_at transport u v xml h = reading-write_other transport u v xml (λ e. cc) h

pub reading-write :
    (t : Tag) (v xml : Text) → IsValue t v → reading (write t v xml) ≡ overwrite t v (reading xml)
reading-write t v xml h = fun_ext λ u. reading-write_at t u v xml h

overwrite_absent :
    (t u : Tag) (v : Text) (shown : Tag → Option Text)
    → shown t ≡ none
    → shown u ≡ overwrite t v shown u
overwrite_absent width width v shown h = h ∙ sym (ap (Option.map (λ (old : Text). v)) h)
overwrite_absent width u v shown h = refl
overwrite_absent height height v shown h = h ∙ sym (ap (Option.map (λ (old : Text). v)) h)
overwrite_absent height u v shown h = refl
overwrite_absent frame_rate frame_rate v shown h = h ∙ sym (ap (Option.map (λ (old : Text). v)) h)
overwrite_absent frame_rate u v shown h = refl
overwrite_absent upper_cap upper_cap v shown h = h ∙ sym (ap (Option.map (λ (old : Text). v)) h)
overwrite_absent upper_cap u v shown h = refl
overwrite_absent constant_rate constant_rate v shown h =
    h ∙ sym (ap (Option.map (λ (old : Text). v)) h)
overwrite_absent constant_rate u v shown h = refl
overwrite_absent transport transport v shown h = h ∙ sym (ap (Option.map (λ (old : Text). v)) h)
overwrite_absent transport u v shown h = refl

-- A value that is written only where the pattern is found.
pub reading-write_present :
    (t : Tag) (v xml : Text)
    → IsValue t v
    → reading (write_present t v xml) ≡ overwrite t v (reading xml)
reading-write_present t v xml h = elim (Option-cases (reading xml t)) [
  | inl absent ↦ rw absent (fun_ext λ u. overwrite_absent t u v (reading xml) absent)
  | inr (old, there) ↦ rw there (reading-write t v xml h)
]
