-- ===== src/Cleanup/Pass/Sparing.antt =====
-- `CleanupService.execute_cleanup` of agent/services/cleanup_service.py: what it never removes.
use atm_monitoring_agent.Prelude.{
  ℕ, ◌+◌, ◌-◌, ◌≡◌, ◌≢◌, refl, ap, ◌∙◌, arith, inl, inr, Bool, true, false, not, ◌&&◌, ◌||◌, Option,
  List, [], ◌∷◌, All, All-append, Bool-cases, leb, any, if◌then◌else◌,
}
use atm_monitoring_agent.ParserModels.{Text}
use atm_monitoring_agent.TextOps.{text, text_eq, text_eq-eq, begins, ends_with}
use atm_monitoring_agent.Settings.{AgentSettings}
use atm_monitoring_agent.Cleanup.{
  LogFile, insert_by_age, by_age, purge, sum_sizes, enforce_disk_cap,
}
use atm_monitoring_agent.Cleanup.Pass.{
  Entry, Host, Disk, is_old_log, is_crash_file, targets_in, active_bytes, is_removed, left_in,
  all_targets, archive_old_crashes, execute_cleanup,
}

-- What holds of all files holds of those that are removed.
module _ (P : LogFile → Type 0) where
  insert_by_age-All :
      (f : LogFile) (files : List LogFile) → P f → All P files → All P (insert_by_age f files)
  unfolding insert_by_age
  insert_by_age-All f [] h a = (h, tt)
  insert_by_age-All f (g ∷ files) h a = elim (Bool-cases (leb f.mtime g.mtime)) [
    | inl e ↦ rw e (h, a)
    | inr e ↦ rw e (a.0, insert_by_age-All f files h a.1)
  ]

  by_age-All : (files : List LogFile) → All P files → All P (by_age files)
  unfolding by_age
  by_age-All [] a = tt
  by_age-All (f ∷ files) a = insert_by_age-All f (by_age files) a.0 (by_age-All files a.1)

  module _ (removable : LogFile → Bool) (max_bytes : ℕ) where
    purge-All :
        (total : ℕ) (files : List LogFile)
        → All P files
        → All P (purge removable max_bytes total files).removed
    unfolding purge
    purge-All total [] a = tt
    purge-All total (f ∷ files) a = elim (Bool-cases (removable f)) [
      | inr e ↦ rw e (purge-All total files a.1)
      | inl e ↦ rw e (elim (Bool-cases (leb (total - f.bytes) max_bytes)) [
        | inl c ↦ rw c (a.0, tt)
        | inr c ↦ rw c (a.0, purge-All (total - f.bytes) files a.1)
      ])
    ]

    enforce_disk_cap-All :
        (active : ℕ) (files : List LogFile)
        → All P files
        → All P (enforce_disk_cap removable max_bytes active files).removed
    unfolding enforce_disk_cap
    enforce_disk_cap-All active files a =
        let total = sum_sizes files + active in
        elim (Bool-cases (leb total max_bytes)) [
          | inl c ↦ rw c tt
          | inr c ↦ rw c (purge-All total (by_age files) (by_age-All files a))
        ]

-- The names that a cleanup must not touch: the active log, the log of the tests, and every name that
-- neither ends in `.log` nor begins with `agent.log.`.
abbrev pub is_protected : Text → Bool
is_protected name =
    text_eq name (text "agent.log")
    || (text_eq name (text "test_ej.log")
        || (not (ends_with (text ".log") name) && not (begins (λ c. c) (text "agent.log.") name)))

-- The protected files of a directory, in order.
unfoldable pub spared : List Entry → List Entry
spared [] = []
spared (e ∷ entries) = if is_protected e.filename then e ∷ spared entries else spared entries

agent_log-is_old_log : is_old_log (text "agent.log") ≡ false
unfolding begins ends_with text_eq
agent_log-is_old_log = refl

test_log-is_old_log : is_old_log (text "test_ej.log") ≡ false
unfolding begins ends_with text_eq
test_log-is_old_log = refl

neither : (a b c : Bool) → (not a && not b) ≡ true → (b || (a && c)) ≡ false
neither a b c h = ground arith

-- A protected file is none of those that may be purged.
protected-is_old_log : (name : Text) → is_protected name ≡ true → is_old_log name ≡ false
protected-is_old_log name h = elim (Bool-cases (text_eq name (text "agent.log"))) [
  | inl active ↦ ap is_old_log (text_eq-eq name _ active) ∙ agent_log-is_old_log
  | inr other ↦ elim (Bool-cases (text_eq name (text "test_ej.log"))) [
    | inl tests ↦ ap is_old_log (text_eq-eq name _ tests) ∙ test_log-is_old_log
    | inr named ↦
        neither (ends_with (text ".log") name) (begins (λ c. c) (text "agent.log.") name) _
          (rw (other, named) at h)
  ]
]

not_any :
    (x : Text) (removed : List LogFile)
    → All (λ f. text_eq x f.filepath ≡ false) removed
    → any (λ (f : LogFile). text_eq x f.filepath) removed ≡ false
not_any x [] a = refl
not_any x (f ∷ removed) a = rw (a.0, not_any x removed a.1)

left_in-spared :
    (path : Text → Text) (removed : List LogFile)
    → ((e : Entry) → is_protected e.filename ≡ true → is_removed path removed e ≡ false)
    → (entries : List Entry) → spared (left_in path removed entries) ≡ spared entries
unfolding spared left_in
left_in-spared path removed sparing [] = refl
left_in-spared path removed sparing (e ∷ entries) =
    let rest = left_in-spared path removed sparing entries in
    elim (Bool-cases (is_protected e.filename)) [
      | inr other ↦ elim (Bool-cases (is_removed path removed e)) [
        | inl gone ↦ rw (gone, other) rest
        | inr kept ↦ rw (kept, other) rest
      ]
      | inl safe ↦ rw (sparing e safe, safe) (ap (◌∷◌ e) rest)
    ]

text_eq-false : (s t : Text) → s ≢ t → text_eq s t ≡ false
text_eq-false s t h = elim (Bool-cases (text_eq s t)) [
  | inl e ↦ absurd (h (text_eq-eq s t e))
  | inr e ↦ e
]

targets_in-All :
    (path : Text → Text) (p : Text → Bool) (x : Text)
    → ((name : Text) → p name ≡ true → x ≢ path name)
    → (entries : List Entry) → All (λ f. text_eq x f.filepath ≡ false) (targets_in path p entries)
unfolding targets_in
targets_in-All path p x other [] = tt
targets_in-All path p x other (e ∷ entries) =
    let rest = targets_in-All path p x other entries in
    elim (Bool-cases (p e.filename)) [
      | inl e₁ ↦ rw e₁ (text_eq-false x (path e.filename) (other e.filename e₁), rest)
      | inr e₁ ↦ rw e₁ rest
    ]

-- If the files have different paths, a cleanup leaves of the log directory, in their order, the active
-- log `agent.log`, `test_ej.log` and every file whose name neither ends in `.log` nor begins with
-- `agent.log.`, whatever the settings and the limits are.
pub execute_cleanup-spared :
    (h : Host) (settings : Option AgentSettings) (d : Disk)
    → ((a b : Text) → h.log_path a ≡ h.log_path b → a ≡ b)
    → ((a b : Text) → h.log_path a ≢ h.crash_path b)
    → spared (execute_cleanup h settings d).logs ≡ spared d.logs
unfolding execute_cleanup
execute_cleanup-spared h settings d distinct apart =
    let crashes = archive_old_crashes h.now h.zip d.crashes d.crashes in
    left_in-spared h.log_path _
      (λ e current. not_any (h.log_path e.filename) _ (
        enforce_disk_cap-All (λ f. text_eq (h.log_path e.filename) f.filepath ≡ false) h.removable _
          (active_bytes d.logs) (all_targets h d.logs crashes)
          (All-append _ _ _
            (targets_in-All h.log_path is_old_log (h.log_path e.filename)
              (λ name old k. cc (
                ap is_old_log (distinct e.filename name k),
                protected-is_old_log e.filename current,
              ))
              d.logs)
            (targets_in-All h.crash_path is_crash_file (h.log_path e.filename)
              (λ name old. apart e.filename name) crashes))))
      d.logs
