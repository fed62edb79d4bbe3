-- ===== src/Storage/Examples.antt =====
-- Instances of the laws of storage/storage.go, at a model that is one byte and a toy JSON package that
-- writes it between braces.
use cliffhanger.Prelude.{
  ℕ, zero, suc, ◌<◌, ◌≡◌, refl, ◌⊎◌, Bool, true, false, none, some, [], ◌∷◌, arith, nat_eq,
  string_eq,
}
use cliffhanger.Prelude.Int.{int_eq}
use cliffhanger.Storage.{
  Bytes, take, Json, Storage, new_state, all_written, SaveFaults, save, make_backup, write_model,
  write_file,
}
use cliffhanger.Storage.Laws.{IsJson, loaded, load-save, save-keeps, cut_at, two_cuts}

abbrev read_byte : Bytes → ℕ → ℕ × Bool
read_byte (o ∷ m ∷ c ∷ []) t = (m, true)
read_byte _ t = (t, false)

abbrev toy : Json ℕ
toy = record { marshal = λ m. some (b'{' ∷ m ∷ b'}' ∷ []); unmarshal = read_byte }

cut_refused : (m t : ℕ) (n : ℕ) → n < 3 → read_byte (take n (b'{' ∷ m ∷ b'}' ∷ [])) t ≡ (t, false)
cut_refused m t zero h = refl
cut_refused m t (suc zero) h = refl
cut_refused m t (suc (suc zero)) h = refl
cut_refused m t (suc (suc (suc n))) h = absurd (omega arith)

same_bytes : {b c : Bytes} → some b ≡ some c → b ≡ c
same_bytes e = cc

toy-IsJson : IsJson toy 0
toy-IsJson = record {
  restores = λ m b q. rw (← same_bytes q);
  refuses = λ m t b n q h. rw (← same_bytes q) (cut_refused m t n (rw (← same_bytes q) at h));
}

abbrev sample : Storage ℕ
sample = record {
  files = record {
    data_file = some (b'{' ∷ 7 ∷ b'}' ∷ []);
    backup_file = none;
    defaults_file = none;
  };
  has_defaults = false;
  model = 8;
}

abbrev fine : SaveFaults
fine = record (cut_at 0) { data_written = all_written }

load-save_example :
    loaded toy 0 toy-IsJson (save toy fine (new_state 8 sample.files)).0.files ≡ (8, true)
unfolding save make_backup write_model write_file
load-save_example = load-save toy 0 toy-IsJson fine sample.files 8 (b'{' ∷ 8 ∷ b'}' ∷ []) refl refl

save-keeps_example :
    let fs = (save toy (cut_at 2) (new_state 8 sample.files)).0.files in
    (loaded toy 0 toy-IsJson fs ≡ (7, true)) ⊎ (loaded toy 0 toy-IsJson fs ≡ (8, true))
save-keeps_example =
    save-keeps toy 0 toy-IsJson (cut_at 2) 7 8 sample.files (b'{' ∷ 7 ∷ b'}' ∷ [], refl, refl)

two_cuts_example :
    let s1 = save toy (cut_at 2) (new_state 8 sample.files) in
    let s2 = save toy (cut_at 1) (new_state 9 s1.0.files) in
    loaded toy 0 toy-IsJson s2.0.files ≡ (0, false)
two_cuts_example =
    two_cuts toy 0 toy-IsJson sample.files 8 9 (b'{' ∷ 8 ∷ b'}' ∷ []) (b'{' ∷ 9 ∷ b'}' ∷ []) 2 1
      refl refl (omega arith) (omega arith)
