-- ===== src/Storage.antt =====
-- storage/storage.go: a model kept in a JSON file, with a backup of the file and optional defaults.
-- The file system is the contents of the three files; each operation on it may fail, as the faults
-- given say. Paths that are directories are left out. Go's JSON package is an argument.
mod Laws
mod Examples
use cliffhanger.Prelude.{
  ℕ, zero, suc, Bool, true, false, not, ◌&&◌, ◌||◌, Option, none, some, List, [], ◌∷◌,
  if◌then◌else◌,
}

abbrev pub Bytes : Type 0
Bytes = List ℕ

abbrev pub take {ℓ} : {A : Type ℓ} → ℕ → List A → List A
take zero xs = []
take (suc n) [] = []
take (suc n) (x ∷ xs) = x ∷ take n xs

-- json.MarshalIndent, and json.Unmarshal into a model: the model after the call, and whether it
-- returned no error.
pub record Json (T : Type 0) : Type 0 where
  pub marshal : T → Option Bytes
  pub unmarshal : Bytes → T → T × Bool

-- `none` is a file that does not exist.
pub record Files : Type 0 where
  pub data_file : Option Bytes
  pub backup_file : Option Bytes
  pub defaults_file : Option Bytes

-- `has_defaults` is `defaultsPath != ""`.
pub record Storage (T : Type 0) : Type 0 where
  pub files : Files
  pub has_defaults : Bool
  pub model : T

-- `NewState`, and `NewCanonicalState` at its own paths: a storage without defaults, over the files that there are
abbrev pub new_state : {T : Type 0} → T → Files → Storage T
new_state m fs = record { files = fs; has_defaults = false; model = m }

-- What becomes of the opening, writing, syncing and closing of a file: all is well, the file cannot be
-- opened, or an error occurs when `n` bytes are in the file. The last is also what the end of the
-- process at that point leaves behind.
pub data Written : Type 0 where
  all_written not_opened : Written
  stopped : ℕ → Written

-- `writeFile`, which truncates the file first; the Boolean tells that there is no error.
unfoldable pub write_file : Written → Bytes → Option Bytes → Option Bytes × Bool
write_file all_written body old = (some body, true)
write_file not_opened body old = (old, false)
write_file (stopped n) body old = (some (take n body), false)

-- The faults of a save; `true` is an error.
pub record SaveFaults : Type 0 where
  pub mkdir_fails : Bool
  pub stat_fails : Bool
  pub read_fails : Bool
  pub backup_written : Written
  pub data_written : Written

-- `makeBackup`
unfoldable pub make_backup : SaveFaults → Files → Files × Bool
unfolding write_file
make_backup f fs = if f.stat_fails then (fs, false) else elim fs.data_file [
  | none ↦ (fs, true)
  | some body ↦
      (if f.read_fails
        then (fs, false)
        else let (b, done) = write_file f.backup_written body fs.backup_file in
          (record fs { backup_file = b }, done))
]

-- the faults of a load or a reset; `true` is an error
pub record LoadFaults : Type 0 where
  pub stat_data : Bool
  pub stat_defaults : Bool
  pub stat_backup : Bool
  pub read_data : Bool
  pub read_defaults : Bool
  pub read_backup : Bool
  pub remove_data : Bool
  pub remove_backup : Bool

-- `fileExists`
abbrev pub exists : Option Bytes → Bool
exists none = false
exists (some body) = true

module _ {T : Type 0} (json : Json T) where
  -- from the marshalling on
  unfoldable pub write_model : Written → T → Files → Files × Bool
  unfolding write_file
  write_model w m fs = elim (json.marshal m) [
    | none ↦ (fs, false)
    | some body ↦
        (let (d, done) = write_file w body fs.data_file in (record fs { data_file = d }, done))
  ]

  abbrev pub after_backup : Written → T → Files × Bool → Files × Bool
  after_backup w m (fs, true) = write_model w m fs
  after_backup w m (fs, false) = (fs, false)

  -- `Save`
  unfoldable pub save : SaveFaults → Storage T → Storage T × Bool
  unfolding make_backup write_model
  save f s =
      if f.mkdir_fails
      then (s, false)
      else let (fs, done) = after_backup f.data_written s.model (make_backup f s.files) in
        (record s { files = fs }, done)

  -- `loadFile`: reading a missing file is an error
  unfoldable pub load_file : Bool → Option Bytes → T → T × Bool
  load_file read_fails none m = (m, false)
  load_file read_fails (some body) m = if read_fails then (m, false) else json.unmarshal body m

  abbrev pub or_backup : LoadFaults → Option Bytes → T × Bool → T × Bool
  or_backup f backup (m, true) = (m, true)
  or_backup f none (m, false) = (m, false)
  or_backup f (some body) (m, false) =
      if f.stat_backup then (m, false) else load_file f.read_backup (some body) m

  -- `loadData`
  unfoldable pub load_data : LoadFaults → Files → T → T × Bool
  unfolding load_file
  load_data f fs m = or_backup f fs.backup_file (load_file f.read_data fs.data_file m)

  abbrev pub after_defaults : LoadFaults → Files → Bool → T × Bool → T × Bool
  after_defaults f fs data_exists (m, false) = (m, false)
  after_defaults f fs false (m, true) = (m, true)
  after_defaults f fs true (m, true) = let (m', _) = load_data f fs m in (m', true)

  -- `load`
  unfoldable pub load_existing : LoadFaults → Bool → Bool → Storage T → T × Bool
  unfolding load_file load_data
  load_existing f defaults_exists data_exists s =
      if not data_exists && not defaults_exists && not s.has_defaults
      then (s.model, true)
      else if defaults_exists
      then after_defaults f s.files data_exists
          (load_file f.read_defaults s.files.defaults_file s.model)
      else load_data f s.files s.model

  -- `Load`
  unfoldable pub load : LoadFaults → Storage T → Storage T × Bool
  load f s =
      if f.stat_data
      then (s, false)
      else if s.has_defaults && f.stat_defaults
      then (s, false)
      else let d = exists s.files.data_file in
        let e = s.has_defaults && exists s.files.defaults_file in
        if not d && not e && s.has_defaults
        then (s, false)
        else let (m, done) = load_existing f e d s in (record s { model = m }, done)

-- `removeFile`
unfoldable pub remove_file : Bool → Bool → Option Bytes → Option Bytes × Bool
remove_file stat_fails remove_fails none = (none, not stat_fails)
remove_file stat_fails remove_fails (some body) =
    if stat_fails || remove_fails then (some body, false) else (none, true)

module _ {T : Type 0} (json : Json T) where
  abbrev pub after_removal : LoadFaults → Storage T → Storage T × Bool
  after_removal f s =
      if not s.has_defaults
      then (s, true)
      else let (m, done) = load_existing json f true false s in (record s { model = m }, done)

  -- `Reset`
  unfoldable pub reset : LoadFaults → Storage T → Storage T × Bool
  unfolding remove_file load_existing
  reset f s =
      if s.has_defaults && (f.stat_defaults || not (exists s.files.defaults_file))
      then (s, false)
      else let (d, data_gone) = remove_file f.stat_data f.remove_data s.files.data_file in
        let s' = record s { files = record s.files { data_file = d } } in
        let (b, backup_gone) = remove_file f.stat_backup f.remove_backup s.files.backup_file in
        let s'' = record s { files = record s.files { data_file = d; backup_file = b } } in
        if not data_gone
        then (s', false)
        else if not backup_gone
        then (s'', false)
        else after_removal f s''
