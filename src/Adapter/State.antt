-- ===== src/Adapter/State.antt =====
-- adapter/state.go: the adapter's index of addresses and its things. A thing's state is handed out as a
-- proxy that shares the entry of the map, so entries stand in a store and the map holds their places.
-- The read-write lock is not reentrant: a call that asks for it while the same goroutine holds it for
-- writing never returns, which `stuck` stands for. What `Save` and Go's JSON package do is an argument.
mod Address
mod Things
mod Locking
mod Examples
use cliffhanger.Prelude.{
  ℕ, ◌+◌, String, Bool, true, false, Option, none, some, List, [], ◌∷◌, str_eq, ◌==◌, if◌then◌else◌,
  length,
}
use cliffhanger.Prelude.Int.{ℤ, pos, ◌+ℤ◌}
use cliffhanger.Prelude.Dict.{Dict, lookup, insert, remove}

-- a thing's record in the file; the raw JSON is text
pub record ThingStateModel : Type 0 where
  pub thing_id : String
  pub address : String
  pub info : String
  pub state : String
  pub inclusion_checksum : ℕ

-- what the file holds
pub record Snapshot : Type 0 where
  pub saved_index : ℤ
  pub saved_things : Dict ThingStateModel

pub record State : Type 0 where
  pub address_index : ℤ
  pub things : Dict ℕ
  pub cells : ℕ → ThingStateModel
  pub next_cell : ℕ
  pub persisted : Snapshot

-- `Save` writes the model; with an error the file has the old contents or the new ones (Storage.Laws).
pub data Saving : Type 0 where
  saved failed_old failed_new : Saving

pub data Outcome {ℓ} (A : Type ℓ) : Type ℓ where
  returned : A → Outcome A
  stuck : Outcome A

-- how the calling goroutine holds the lock
pub data Held : Type 0 where
  unheld reading writing : Held

entries : Dict ℕ → (ℕ → ThingStateModel) → Dict ThingStateModel
entries [] cells = []
entries ((id, i) ∷ rest) cells = (id, cells i) ∷ entries rest cells

unfoldable pub snapshot : State → Snapshot
unfolding entries
snapshot s = record { saved_index = s.address_index; saved_things = entries s.things s.cells }

-- the state after `Save`, and whether it returned no error
unfoldable pub save : Saving → State → State × Bool
save saved s = (record s { persisted = snapshot s }, true)
save failed_old s = (s, false)
save failed_new s = (record s { persisted = snapshot s }, false)

-- The address is the decimal form of the number given; `none` is an error.
unfoldable pub acquire_address : Saving → State → State × Option ℤ
acquire_address w s =
    let (s', done) = save w (record s { address_index = s.address_index +ℤ pos 1 }) in
    (s', if done then some s'.address_index else none)

abbrev pub update : (ℕ → ThingStateModel) → ℕ → ThingStateModel → ℕ → ThingStateModel
update f i m j = if i == j then m else f j

-- The proxy is the place of the entry.
unfoldable pub add : Saving → ThingStateModel → State → State × Option ℕ
add w m s =
    let i = s.next_cell in
    let (s', done) = save w (record s {
      things = insert m.thing_id i s.things;
      cells = update s.cells i m;
      next_cell = i + 1;
    }) in
    (s', if done then some i else none)

unfoldable pub remove_thing : Saving → String → State → State × Bool
remove_thing w id s = save w (record s { things = remove id s.things })

-- `all`
unfoldable pub all_states : Dict ℕ → List ℕ
all_states [] = []
all_states ((id, i) ∷ rest) = i ∷ all_states rest

unfoldable pub by_id : String → State → Option ℕ
by_id id s = lookup id s.things

find_address : String → Dict ℕ → (ℕ → ThingStateModel) → Option ℕ
find_address a [] cells = none
find_address a ((id, i) ∷ rest) cells =
    if str_eq (cells i).address a then some i else find_address a rest cells

unfoldable pub by_address : String → State → Option ℕ
unfolding find_address
by_address a s = find_address a s.things s.cells

-- `NewState` after the end of the process: every entry gets a place of its own again.
reload : Dict ThingStateModel → ℕ → Dict ℕ
reload [] n = []
reload ((id, m) ∷ rest) n = (id, n) ∷ reload rest (n + 1)

reload_cells : Dict ThingStateModel → ℕ → (ℕ → ThingStateModel) → ℕ → ThingStateModel
reload_cells [] n cells = cells
reload_cells ((id, m) ∷ rest) n cells = reload_cells rest (n + 1) (update cells n m)

unfoldable pub new_state : Snapshot → State
unfolding reload reload_cells
new_state p = record {
  address_index = p.saved_index;
  things = reload p.saved_things 0;
  cells =
      reload_cells p.saved_things 0 (λ i. record {
        thing_id = "";
        address = "";
        info = "";
        state = "";
        inclusion_checksum = 0;
      });
  next_cell = length p.saved_things;
  persisted = p;
}

-- s.ID(), which takes the lock for reading; while the lock is held for reading already, no writer is
-- taken to wait for it
unfoldable pub thing_id_of : Held → ℕ → State → Outcome String
thing_id_of unheld i s = returned (s.cells i).thing_id
thing_id_of reading i s = returned (s.cells i).thing_id
thing_id_of writing i s = stuck

-- s.Address()
unfoldable pub thing_address_of : Held → ℕ → State → Outcome String
thing_address_of unheld i s = returned (s.cells i).address
thing_address_of reading i s = returned (s.cells i).address
thing_address_of writing i s = stuck

-- an error whose text names the ID of the thing
unfoldable pub name_error : Held → ℕ → State → Outcome (State × Bool)
name_error held i s = elim (thing_id_of held i s) [
  | stuck ↦ stuck
  | returned id ↦ returned (s, false)
]

-- `Info` and `State`; `readable` tells whether `json.Unmarshal` takes the text. The Boolean returned
-- tells that there is no error.
unfoldable pub read_info : (String → Bool) → ℕ → State → Outcome (State × Bool)
unfolding name_error thing_id_of
read_info readable i s =
    if str_eq (s.cells i).info ""
    then returned (s, true)
    else if readable (s.cells i).info
    then returned (s, true)
    else name_error reading i s

unfoldable pub read_state : (String → Bool) → ℕ → State → Outcome (State × Bool)
unfolding name_error thing_id_of
read_state readable i s =
    if str_eq (s.cells i).state ""
    then returned (s, true)
    else if readable (s.cells i).state
    then returned (s, true)
    else name_error reading i s

-- The rest of a setter, which holds the lock for writing.
unfoldable pub save_cell : Saving → ℕ → State → Outcome (State × Bool)
unfolding name_error thing_id_of
save_cell w i s =
    let (s', done) = save w s in if done then returned (s', true) else name_error writing i s'

-- `SetState`; `marshalled` is what `json.Marshal` makes of the model, `none` an error
unfoldable pub set_state : Option String → Saving → ℕ → State → Outcome (State × Bool)
unfolding save_cell
set_state none w i s = name_error writing i s
set_state (some text) w i s =
    save_cell w i (record s { cells = update s.cells i (record (s.cells i) { state = text }) })

unfoldable pub inclusion_checksum_of : ℕ → State → ℕ
inclusion_checksum_of i s = (s.cells i).inclusion_checksum

unfoldable pub set_inclusion_checksum : ℕ → Saving → ℕ → State → Outcome (State × Bool)
unfolding save_cell
set_inclusion_checksum checksum w i s =
    save_cell w i
      (record s { cells = update s.cells i (record (s.cells i) { inclusion_checksum = checksum }) })
