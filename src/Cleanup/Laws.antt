-- ===== src/Cleanup/Laws.antt =====
-- `_enforce_disk_cap` of agent/services/cleanup_service.py: how much is removed, and which files.
use atm_monitoring_agent.Prelude.{
  ℕ, ◌+◌, ◌-◌, ◌≤◌, ◌≡◌, ◌⊎◌, inl, inr, Bool, List, [], ◌∷◌, arith, refl, Bool-cases, leb, All,
}
use atm_monitoring_agent.Cleanup.{
  LogFile, insert_by_age, by_age, sum_sizes, Purge, purge, enforce_disk_cap,
}

-- Every file is at least as old as each of the later ones.
abbrev pub IsByAge : List LogFile → Type 0
IsByAge [] = Unit
IsByAge (f ∷ files) = All (λ g. f.mtime ≤ g.mtime) files × IsByAge files

All-insert_by_age :
    (f : LogFile) (t : ℕ) (files : List LogFile)
    → t ≤ f.mtime
    → All (λ g. t ≤ g.mtime) files
    → All (λ g. t ≤ g.mtime) (insert_by_age f files)
unfolding insert_by_age
All-insert_by_age f t [] h a = (h, tt)
All-insert_by_age f t (g ∷ files) h a = elim (Bool-cases (leb f.mtime g.mtime)) [
  | inl e ↦ rw e (h, a)
  | inr e ↦ rw e (a.0, All-insert_by_age f t files h a.1)
]

older :
    (t u : ℕ) (files : List LogFile)
    → t ≤ u
    → All (λ g. u ≤ g.mtime) files
    → All (λ g. t ≤ g.mtime) files
older t u [] h a = tt
older t u (g ∷ files) h a = (let e = a.0 in omega arith, older t u files h a.1)

insert_by_age-IsByAge :
    (f : LogFile) (files : List LogFile) → IsByAge files → IsByAge (insert_by_age f files)
unfolding insert_by_age
insert_by_age-IsByAge f [] a = (tt, tt)
insert_by_age-IsByAge f (g ∷ files) a = elim (Bool-cases (leb f.mtime g.mtime)) [
  | inl e ↦
      let le : f.mtime ≤ g.mtime = ground (arith, e) in
      rw e ((le, older f.mtime g.mtime files le a.0), a)
  | inr e ↦
      rw e (
        All-insert_by_age f g.mtime files (ground (arith, e)) a.0,
        insert_by_age-IsByAge f files a.1,
      )
]

by_age-IsByAge : (files : List LogFile) → IsByAge (by_age files)
unfolding by_age
by_age-IsByAge [] = tt
by_age-IsByAge (f ∷ files) = insert_by_age-IsByAge f (by_age files) (by_age-IsByAge files)

sum-insert_by_age :
    (f : LogFile) (files : List LogFile)
    → sum_sizes (insert_by_age f files) ≡ f.bytes + sum_sizes files
unfolding insert_by_age sum_sizes
sum-insert_by_age f [] = refl
sum-insert_by_age f (g ∷ files) = elim (Bool-cases (leb f.mtime g.mtime)) [
  | inl e ↦ rw e refl
  | inr e ↦ rw e (let r = sum-insert_by_age f files in omega arith)
]

sum-by_age : (files : List LogFile) → sum_sizes (by_age files) ≡ sum_sizes files
unfolding by_age sum_sizes
sum-by_age [] = refl
sum-by_age (f ∷ files) =
    let r = sum-by_age files in let s = sum-insert_by_age f (by_age files) in omega arith

-- What a purge from `total` bytes has done to files that are sorted by age.
pub record IsPurged (max_bytes total : ℕ) (p : Purge) : Type 0 where
  pub total_lem : p.total + sum_sizes p.removed ≡ total
  -- the cap is kept, or every file was tried
  pub cap_lem : (p.total ≤ max_bytes) ⊎ (p.kept ≡ [])
  -- each removed file is at least as old as each file that was kept
  pub age_lem : All (λ f. All (λ g. f.mtime ≤ g.mtime) p.kept) p.removed

module _ (removable : LogFile → Bool) (max_bytes : ℕ) where
  All-kept :
      (P : LogFile → Type 0) (total : ℕ) (files : List LogFile)
      → All P files
      → All P (purge removable max_bytes total files).kept
  unfolding purge
  All-kept P total [] a = tt
  All-kept P total (f ∷ files) a = elim (Bool-cases (removable f)) [
    | inr e ↦ rw (e, purge) (All-kept P total files a.1)
    | inl e ↦
        rw (e, purge)
          (elim (Bool-cases (leb (total - f.bytes) max_bytes)) [
            | inl c ↦ rw (c, purge) a.1
            | inr c ↦ rw (c, purge) (All-kept P (total - f.bytes) files a.1)
          ])
  ]

  purge-IsPurged :
      (total : ℕ) (files : List LogFile)
      → IsByAge files
      → sum_sizes files ≤ total
      → IsPurged max_bytes total (purge removable max_bytes total files)
  unfolding purge sum_sizes
  purge-IsPurged total [] a h = record { total_lem = omega arith; cap_lem = inr refl; age_lem = tt }
  purge-IsPurged total (f ∷ files) a h = elim (Bool-cases (removable f)) [
    | inr e ↦
        let next = purge-IsPurged total files a.1 (omega arith) in
        rw (e, purge)
          (record { total_lem = next.total_lem; cap_lem = next.cap_lem; age_lem = next.age_lem })
    | inl e ↦
        rw (e, purge)
          (elim (Bool-cases (leb (total - f.bytes) max_bytes)) [
            | inl c ↦
                rw (c, purge)
                  (record {
                    total_lem = omega arith;
                    cap_lem = inl (ground (arith, c));
                    age_lem = (a.0, tt);
                  })
            | inr c ↦
                let next = purge-IsPurged (total - f.bytes) files a.1 (omega arith) in
                rw (c, purge)
                  (record {
                    total_lem = let t = next.total_lem in omega arith;
                    cap_lem = next.cap_lem;
                    age_lem = (
                      All-kept (λ g. f.mtime ≤ g.mtime) (total - f.bytes) files a.0,
                      next.age_lem,
                    );
                  })
          ])
  ]

-- A cleanup pass keeps the books, whatever files cannot be removed: the total it ends with and the
-- sizes of the files it removed add up to the size of all files with the active log. It ends within
-- the cap or after trying every file, and each file it removed is at least as old as each that it did
-- not come to.
pub enforce_disk_cap-IsPurged :
    (removable : LogFile → Bool) (max_bytes active : ℕ) (targets : List LogFile)
    → IsPurged max_bytes
        (sum_sizes targets + active)
        (enforce_disk_cap removable max_bytes active targets)
unfolding enforce_disk_cap sum_sizes
enforce_disk_cap-IsPurged removable max_bytes active targets =
    let total = sum_sizes targets + active in
    let s = sum-by_age targets in
    elim (Bool-cases (leb total max_bytes)) [
      | inl c ↦
          rw (c, enforce_disk_cap)
            (record { total_lem = omega arith; cap_lem = inl (ground (arith, c)); age_lem = tt })
      | inr c ↦
          rw (c, enforce_disk_cap)
            (purge-IsPurged removable max_bytes total (by_age targets) (by_age-IsByAge targets)
              (omega arith))
    ]
