-- ===== src/Storage/Laws.antt =====
-- What a failed or interrupted save of storage/storage.go leaves behind, and what a load makes of it.
use cliffhanger.Prelude.{
  ℕ, zero, suc, ◌≤◌, ◌<◌, ◌≡◌, refl, ap, ◌⊎◌, inl, inr, Bool, true, false, Option, none, some, List,
  [], ◌∷◌, arith, ltb, ltb→lt, Bool-cases, Option-cases, nat_eq, string_eq, length,
}
use cliffhanger.Prelude.Int.{int_eq}
use cliffhanger.Storage.{
  Bytes, take, Json, Files, Storage, new_state, Written, all_written, not_opened, stopped,
  write_file, SaveFaults, make_backup, LoadFaults, reset, remove_file, write_model, after_backup,
  save, load_file, or_backup, load_data, load_existing, load,
}

-- What the storage relies on of Go's JSON package, for the models of a program that starts from
-- `initial`: a marshalled model is read back, and a proper prefix of it is refused before the target
-- is touched, since no proper prefix of a JSON object is JSON.
pub record IsJson {T : Type 0} (json : Json T) (initial : T) : Type 0 where
  pub restores :
      (m : T) (b : Bytes) → json.marshal m ≡ some b → json.unmarshal b initial ≡ (m, true)
  pub refuses :
      (m t : T) (b : Bytes) (n : ℕ)
      → json.marshal m ≡ some b
      → n < length b
      → json.unmarshal (take n b) t ≡ (t, false)

abbrev pub no_faults : LoadFaults
no_faults = record {
  stat_data = false;
  stat_defaults = false;
  stat_backup = false;
  read_data = false;
  read_defaults = false;
  read_backup = false;
  remove_data = false;
  remove_backup = false;
}

-- A save in which all is well but the writing of the data, which stops after `n` bytes.
abbrev pub cut_at : ℕ → SaveFaults
cut_at n = record {
  mkdir_fails = false;
  stat_fails = false;
  read_fails = false;
  backup_written = all_written;
  data_written = stopped n;
}

take_all {ℓ} : {A : Type ℓ} (n : ℕ) (xs : List A) → length xs ≤ n → take n xs ≡ xs
take_all zero [] h = refl
take_all zero (x ∷ xs) h = absurd (omega arith)
take_all (suc n) [] h = refl
take_all (suc n) (x ∷ xs) h = ap (λ l. x ∷ l) (take_all n xs (omega arith))

module _ {T : Type 0} (json : Json T) (initial : T) (laws : IsJson json initial) where
  -- A program that starts from the files with a storage without defaults: what a load without faults makes
  -- of the initial model.
  abbrev pub start : Files → Storage T × Bool
  start fs = load json no_faults (new_state initial fs)

  -- The data file holds the model.
  abbrev pub Holds : Option Bytes → T → Type 0
  Holds f m = (b : Bytes) × (f ≡ some b) × (json.marshal m ≡ some b)

  -- A whole or a cut file of a model, as a write that was started leaves it.
  written_part :
      (m t : T) (b : Bytes) (n : ℕ)
      → json.marshal m ≡ some b
      → (take n b ≡ b) ⊎ (json.unmarshal (take n b) t ≡ (t, false))
  written_part m t b n h = elim (Bool-cases (ltb n (length b))) [
    | inl l ↦ inr (laws.refuses m t b n h (ltb→lt _ _ l))
    | inr l ↦ inl (take_all n b (ground arith))
  ]

  -- The model and the error of the start.
  abbrev pub loaded : Files → T × Bool
  loaded fs = ((start fs).0.model, (start fs).1)

  load_lem :
      (fs : Files) (d : Bytes)
      → fs.data_file ≡ some d
      → let (s, done) =
          load json no_faults (record { files = fs; has_defaults = false; model = initial }) in
        (s.model, done) ≡ or_backup json no_faults fs.backup_file (json.unmarshal d initial)
  unfolding load load_existing load_data load_file
  load_lem fs d h = rw h

  loaded_lem :
      (fs : Files) (d : Bytes)
      → fs.data_file ≡ some d
      → loaded fs ≡ or_backup json no_faults fs.backup_file (json.unmarshal d initial)
  loaded_lem fs d h = load_lem fs d h

  loaded-Holds : (fs : Files) (m : T) → Holds fs.data_file m → loaded fs ≡ (m, true)
  loaded-Holds fs m (b, h, q) = rw (loaded_lem fs b h, laws.restores m b q)

  loaded-backup :
      (fs : Files) (m : T) (d : Bytes)
      → fs.data_file ≡ some d
      → json.unmarshal d initial ≡ (initial, false)
      → Holds fs.backup_file m
      → loaded fs ≡ (m, true)
  loaded-backup fs m d h refused (b, k, q) =
      rw (loaded_lem fs d h, refused, k) (unfold load_file in laws.restores m b q)

  -- For a storage made by `NewState` or `NewCanonicalState`, which has no defaults: after a save without faults the next start has
  -- the saved model, whatever the files held.
  pub load-save :
      (f : SaveFaults) (fs : Files) (m : T) (b : Bytes)
      → json.marshal m ≡ some b
      → (save json f (new_state m fs)).1 ≡ true
      → loaded (save json f (new_state m fs)).0.files ≡ (m, true)
  load-save f fs m b q done = loaded-Holds (save json f (new_state m fs)).0.files m (b, written, q)
    where
      written : (save json f (new_state m fs)).0.files.data_file ≡ some b
      written = unfold save make_backup write_model write_file in ground arith

  after_write :
      (w : Written) (m0 m1 : T) (fs : Files)
      → Holds fs.data_file m0
      → Holds fs.backup_file m0
      → (loaded (write_model json w m1 fs).0 ≡ (m0, true))
        ⊎ (loaded (write_model json w m1 fs).0 ≡ (m1, true))
  unfolding write_model
  after_write w m0 m1 fs old back = elim (Option-cases (json.marshal m1)) [
    | inl n ↦ rw (n, write_model) (inl (loaded-Holds fs m0 old))
    | inr (b, q) ↦ rw (q, write_model) (cut b q w)
  ]
    where
      cut :
          (b : Bytes)
          → json.marshal m1 ≡ some b
          → (v : Written)
          → let fs' = record fs { data_file = (write_file v b fs.data_file).0 } in
            (loaded fs' ≡ (m0, true)) ⊎ (loaded fs' ≡ (m1, true))
      cut b q all_written = inr (loaded-Holds _ m1 (b, refl, q))
      cut b q not_opened = inl (loaded-Holds fs m0 old)
      cut b q (stopped n) = elim (written_part m1 initial b n q) [
        | inl e ↦ inr (loaded-Holds _ m1 (b, ap some e, q))
        | inr r ↦ inl (loaded-backup _ m0 (take n b) refl r back)
      ]

  save-kept :
      (f : SaveFaults) (m0 : T) (s : Storage T)
      → Holds s.files.data_file m0
      → (loaded (save json f s).0.files ≡ (m0, true))
        ⊎ (loaded (save json f s).0.files ≡ (s.model, true))
  unfolding save
  save-kept f m0 s (b, h, q) = elim (Bool-cases f.mkdir_fails) [
    | inl e ↦ rw (e, save) (inl (loaded-Holds s.files m0 (b, h, q)))
    | inr e ↦ elim (Bool-cases f.stat_fails) [
      | inl c ↦ rw (e, save, c, make_backup) (inl (loaded-Holds s.files m0 (b, h, q)))
      | inr c ↦ elim (Bool-cases f.read_fails) [
        | inl r ↦ rw (e, save, c, make_backup, h, r) (inl (loaded-Holds s.files m0 (b, h, q)))
        | inr r ↦ rw (e, save, c, make_backup, h, r) (backed_up f.backup_written)
      ]
    ]
  ]
    where
      backed_up :
          (w : Written)
          → let (back, done) = write_file w b s.files.backup_file in
            let fs =
              (after_backup json f.data_written s.model
                (record s.files { backup_file = back }, done)).0 in
            (loaded fs ≡ (m0, true)) ⊎ (loaded fs ≡ (s.model, true))
      backed_up all_written =
          after_write f.data_written m0 s.model (record s.files { backup_file = some b }) (b, h, q)
            (b, refl, q)
      backed_up not_opened = inl (loaded-Holds s.files m0 (b, h, q))
      backed_up (stopped n) = inl (loaded-Holds _ m0 (b, h, q))

  -- For a storage made by `NewState` or `NewCanonicalState`, which has no defaults: where the data file holds a model, a save of
  -- another one, whatever error stops it and wherever the process ends in it, leaves files from which the
  -- next start has the old model or the new one.
  pub save-keeps :
      (f : SaveFaults) (m0 m1 : T) (fs : Files)
      → Holds fs.data_file m0
      → (loaded (save json f (new_state m1 fs)).0.files ≡ (m0, true))
        ⊎ (loaded (save json f (new_state m1 fs)).0.files ≡ (m1, true))
  save-keeps f m0 m1 fs h = save-kept f m0 (new_state m1 fs) h

  cut-data :
      (fs : Files) (m : T) (b : Bytes) (n : ℕ)
      → json.marshal m ≡ some b
      → (save json (cut_at n) (new_state m fs)).0.files.data_file ≡ some (take n b)
  unfolding save make_backup write_model write_file
  cut-data fs m b n q = ground arith

  cut-backup :
      (fs : Files) (m : T) (d : Bytes) (n : ℕ)
      → fs.data_file ≡ some d
      → (save json (cut_at n) (new_state m fs)).0.files.backup_file ≡ some d
  unfolding save make_backup write_model write_file
  cut-backup fs m d n q = ground arith

  -- For storages made by `NewState` or `NewCanonicalState`, which have no defaults: two saves in a row that both stop before the end
  -- of the data leave files from which the next start has no model and returns an error: the second save puts the cut file in the backup's place.
  pub two_cuts :
      (fs : Files) (m1 m2 : T) (b1 b2 : Bytes) (i j : ℕ)
      → json.marshal m1 ≡ some b1
      → json.marshal m2 ≡ some b2
      → i < length b1
      → j < length b2
      → let s1 = save json (cut_at i) (new_state m1 fs) in
        let s2 = save json (cut_at j) (new_state m2 s1.0.files) in
        loaded s2.0.files ≡ (initial, false)
  two_cuts fs m1 m2 b1 b2 i j q1 q2 l1 l2 =
      let fs1 = (save json (cut_at i) (new_state m1 fs)).0.files in
      let fs2 = (save json (cut_at j) (new_state m2 fs1)).0.files in
      rw
        (
          loaded_lem fs2 (take j b2) (cut-data fs1 m2 b2 j q2),
          laws.refuses m2 initial b2 j q2 l2,
          cut-backup fs1 m2 (take i b1) j (cut-data fs m1 b1 i q1),
        )
        (unfold load_file in laws.refuses m1 initial b1 i q1 l1)

module _ {T : Type 0} (json : Json T) where
  -- A reset that returns no error leaves neither data nor backup, and leaves the model in memory as it
  -- is where there are no defaults, so that a following save writes that model again.
  pub reset_lem :
      (f : LoadFaults) (s : Storage T)
      → (reset json f s).1 ≡ true
      → ((reset json f s).0.files.data_file ≡ none)
        × ((reset json f s).0.files.backup_file ≡ none)
        × (s.has_defaults ≡ false → (reset json f s).0.model ≡ s.model)
  unfolding reset remove_file
  reset_lem f s done = (ground arith, ground arith, λ h. ground arith)
