-- ===== src/Scan/Rotation.antt =====
-- `ParserService.process_file` of agent/services/parser_service.py on a journal that was truncated or
-- replaced.
use atm_monitoring_agent.Prelude.{
  ℕ, suc, ◌<◌, ◌≡◌, true, false, List, [], ◌∷◌, some, length, arith, refl, ◌==◌,
}
use atm_monitoring_agent.ParserModels.{Text}
use atm_monitoring_agent.CircuitBreaker.{closed}
use atm_monitoring_agent.FileUtils.{bytes, read_appended_lines, max_bytes}
use atm_monitoring_agent.FileUtils.Reading.{utf8_pos, size_cons}
use atm_monitoring_agent.FileUtils.Growth.{read_appended_lines-whole}
use atm_monitoring_agent.Scan.{
  AgentFileState, get_file_state, Attempt, Scan, returned, no_failure, header_hash, prefix_len,
  rotation_detected, load_state, try_once, process_file,
}
use atm_monitoring_agent.Scan.Sync.{
  IsScanned, Scanned, get_file_state-key, parse_and_store-Scanned, unless_empty-Scanned,
  process_file_of_Scanned,
}

-- the state behind the reset
abbrev pub reset_state : (List ℕ → Text) → Attempt → AgentFileState → AgentFileState
reset_state hash a s = record s { last_read_offset = 0; file_hash = header_hash hash a 8192 }

module _ (hash : List ℕ → Text) (atm_id : ℕ) (path : Text) where
  load_state-rotated :
      (s : AgentFileState) (a : Attempt) (states : List AgentFileState)
      → get_file_state atm_id path states ≡ some s
      → rotation_detected hash a (header_hash hash a (prefix_len hash (some s))) s ≡ true
      → load_state hash atm_id path a states ≡ reset_state hash a s
  unfolding load_state
  load_state-rotated s a states g d = simp (g, d) refl

  try_once-rotated :
      (x : ℕ) (xs : Text) (s : AgentFileState) (a : Attempt) (k : ℕ) (scan : Scan)
      → get_file_state atm_id path scan.states ≡ some s
      → rotation_detected hash a (header_hash hash a (prefix_len hash (some s))) s ≡ true
      → a.content ≡ x ∷ xs
      → length (bytes (x ∷ xs)) < max_bytes
      → a.readable ≡ true
      → k < 5
      → a.locked k ≡ false
      → a.failure ≡ no_failure
      → Scanned hash atm_id path []
          (x ∷ xs)
          (reset_state hash a s)
          a
          scan
          (try_once hash 0 atm_id path a scan)
  unfolding try_once bytes
  try_once-rotated x xs s a k scan g d e small r h o f =
      let (i, q) = get_file_state-key hash atm_id path s scan.states g in
      let w = utf8_pos x in
      let v = size_cons x xs in
      let more : (length (bytes (x ∷ xs)) == 0) ≡ false = ground (arith, w, v) in
      let (l, n) = read_appended_lines-whole a.locked a.behind [] (x ∷ xs) k h o small in
      let lines : List Text = (read_appended_lines a.locked a.behind (x ∷ xs) 0).0 in
      simp (load_state-rotated s a scan.states g d) (
        simp (f, e, more)
          (unless_empty-Scanned hash atm_id path [] x xs (reset_state hash a s) a lines scan _ _ l (
            parse_and_store-Scanned hash atm_id path [] (x ∷ xs) (reset_state hash a s) a lines _
              scan f e r i q l n)))

-- A rotation is detected, because the journal is shorter than the offset or because its beginning has
-- another hash than the one kept; the journal is not empty and below 10 MiB, and nothing fails: the
-- scan reads it from its first byte, processes the parse of all its lines, and leaves the file state
-- of the new journal.
pub process_file_rotated :
    (hash : List ℕ → Text) (atm_id : ℕ) (path : Text) (x : ℕ) (xs : Text) (s : AgentFileState)
    (fuel now k : ℕ) (attempts : ℕ → Attempt) (scan : Scan)
    → scan.breaker.state ≡ closed
    → get_file_state atm_id path scan.states ≡ some s
    → rotation_detected hash
        (attempts 0)
        (header_hash hash (attempts 0) (prefix_len hash (some s)))
        s
      ≡ true
    → (attempts 0).content ≡ x ∷ xs
    → length (bytes (x ∷ xs)) < max_bytes
    → (attempts 0).readable ≡ true
    → k < 5
    → (attempts 0).locked k ≡ false
    → (attempts 0).failure ≡ no_failure
    → (next : Scan) × (process_file hash (suc fuel) true now atm_id path attempts scan
        ≡ some (returned true next))
      × IsScanned hash atm_id path []
          (x ∷ xs)
          (reset_state hash (attempts 0) s)
          (attempts 0)
          scan
          next
process_file_rotated hash atm_id path x xs s fuel now k attempts scan shut g d e small r h o f =
    process_file_of_Scanned hash atm_id path [] (x ∷ xs) _ fuel now attempts scan shut
      (try_once-rotated hash atm_id path x xs s (attempts 0) k scan g d e small r h o f)
