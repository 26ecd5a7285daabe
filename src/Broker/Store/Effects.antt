-- ===== src/Broker/Store/Effects.antt =====
-- What Register, Delete, FindByID, FindBySessionID and ListBusyRunners do to the table, and what
-- they return.
use hackathon.Common.{
  ◌≡◌, ◌≢◌, refl, sym, ◌⊎◌, inl, inr, true, false, Option, none, some, List, ◌∷◌, Bool-cases,
}
use hackathon.Text.{Text, is_empty}
use hackathon.Broker.Model.{Runner}
use hackathon.Broker.Outcome.{Outcome, ok, err, out_of_fuel, next}
use hackathon.Broker.Store.{
  DynamoRepository, idle_runner, Response, done, conditional_check_failed, failed, StoreError,
  not_found, conflict, invalid_runner_id, invalid_private_host, marshal_failed, put_failed,
  delete_failed, get_failed, unmarshal_failed, is_runner_id, settle, or_fail,
}
use hackathon.Broker.Store.Table.{find_row, remove_row}
use hackathon.Broker.Store.Documented.{Documented, PutEffect, DeleteEffect, GetEffect}
use hackathon.Broker.Store.Operations.{put_new, register, delete, find_by_id, read_item}
use hackathon.Broker.Store.{runner_id_not_exists}

-- The row that Register writes.
abbrev pub Registers : Text → Text → List Runner → List Runner → Type 0
Registers id host before after =
    (is_runner_id id ≡ true)
    × (is_empty host ≡ false)
    × (find_row id before ≡ none)
    × (after ≡ idle_runner id host ∷ before)

abbrev pub RegisterEffect :
    Text → Text → List Runner → List Runner → Outcome StoreError (Unit {0}) → Type 0
RegisterEffect id host before after (ok _) = Registers id host before after
RegisterEffect id host before after (err invalid_runner_id) =
    (is_runner_id id ≡ false) × (after ≡ before)
RegisterEffect id host before after (err invalid_private_host) =
    (is_runner_id id ≡ true) × (is_empty host ≡ true) × (after ≡ before)
RegisterEffect id host before after (err conflict) =
    (is_runner_id id ≡ true)
    × (is_empty host ≡ false)
    × (find_row id before ≢ none)
    × (after ≡ before)
RegisterEffect id host before after (err put_failed) =
    (after ≡ before) ⊎ Registers id host before after
RegisterEffect id host before after (err marshal_failed) =
    (is_runner_id id ≡ true) × (is_empty host ≡ false) × (after ≡ before)
RegisterEffect id host before after (err _) = ⊥
RegisterEffect id host before after out_of_fuel = ⊥

abbrev pub DeleteDone : Text → List Runner → List Runner → Outcome StoreError (Unit {0}) → Type 0
DeleteDone id before after (ok _) = after ≡ remove_row id before
DeleteDone id before after (err e) =
    (e ≡ delete_failed) × ((after ≡ before) ⊎ (after ≡ remove_row id before))
DeleteDone id before after out_of_fuel = ⊥

abbrev pub FindEffect : Text → List Runner → Outcome StoreError Runner → Type 0
FindEffect id before (ok x) = find_row id before ≡ some x
FindEffect id before (err not_found) = find_row id before ≡ none
FindEffect id before (err e) = e ≡ get_failed
FindEffect id before out_of_fuel = ⊥

module _ (r : DynamoRepository) (d : Documented r) where
  open r use {World, Item, Key, marshal_fn, unmarshal_map}
  open d use {rows, rank, most, put_law, delete_law, get_law, query_law}

  put_reply :
      (id host : Text) (before : List Runner) (reply : Response (Unit {0}) × World)
      → is_runner_id id ≡ true
      → is_empty host ≡ false
      → PutEffect (idle_runner id host) before (rows reply.1) reply.0
      → let final = settle conflict put_failed reply in
        RegisterEffect id host before (rows final.1) final.0
  put_reply id host before (done _, w) v f h = (v, f, h.0, h.1)
  put_reply id host before (conditional_check_failed, w) v f h =
      (v, f, (λ absent. cc (absent, h.0.1)), h.1)
  put_reply id host before (failed, w) v f (inl same) = inl same
  put_reply id host before (failed, w) v f (inr wrote) = inr (v, f, wrote.0, wrote.1)

  marshalled :
      (id host : Text) (w : World) (item : Option Item)
      → marshal_fn (idle_runner id host) ≡ item
      → is_runner_id id ≡ true
      → is_empty host ≡ false
      → let final = next (or_fail item marshal_failed w) (put_new r) in
        RegisterEffect id host (rows w) (rows final.1) final.0
  marshalled id host w none e v f = (v, f, refl)
  marshalled id host w (some item) e v f = put_reply id host (rows w) _ v f (put_law _ item w e)

  pub register-RegisterEffect :
      (id host : Text) (w : World)
      → let final = register r id host w in RegisterEffect id host (rows w) (rows final.1) final.0
  unfolding register
  register-RegisterEffect id host w = elim (Bool-cases (is_runner_id id)) [
    | inr bad ↦ rw (bad, register) (bad, refl)
    | inl good ↦ elim (Bool-cases (is_empty host)) [
      | inl empty ↦ rw (good, empty, register) (good, empty, refl)
      | inr filled ↦ rw (good, filled, register) (marshalled id host w _ refl good filled)
    ]
  ]

  -- What the codec or the SDK answered where Register reports that it failed.
  abbrev pub Blames : Text → Text → World → Outcome StoreError (Unit {0}) → Type 0
  Blames id host w (err marshal_failed) = marshal_fn (idle_runner id host) ≡ none
  Blames id host w (err put_failed) =
      (item : Item) × (marshal_fn (idle_runner id host) ≡ some item)
      × ((r.put_item
            (record { table_name = r.table_name; item = item; condition = runner_id_not_exists })
            w).0
          ≡ failed)
  Blames id host w o = Unit

  put-Blames :
      (id host : Text) (w : World) (item : Item) (reply : Response (Unit {0}) × World)
      → marshal_fn (idle_runner id host) ≡ some item
      → (r.put_item
          (record { table_name = r.table_name; item = item; condition = runner_id_not_exists })
          w).0
        ≡ reply.0
      → Blames id host w (settle conflict put_failed reply).0
  put-Blames id host w item (done _, w') m e = tt
  put-Blames id host w item (conditional_check_failed, w') m e = tt
  put-Blames id host w item (failed, w') m e = (item, m, e)

  marshalled-Blames :
      (id host : Text) (w : World) (item : Option Item)
      → marshal_fn (idle_runner id host) ≡ item
      → Blames id host w (next (or_fail item marshal_failed w) (put_new r)).0
  marshalled-Blames id host w none e = e
  marshalled-Blames id host w (some item) e = put-Blames id host w item _ e refl

  register-Blames : (id host : Text) (w : World) → Blames id host w (register r id host w).0
  unfolding register
  register-Blames id host w = elim (Bool-cases (is_runner_id id)) [
    | inr bad ↦ rw (bad, register) tt
    | inl good ↦ elim (Bool-cases (is_empty host)) [
      | inl empty ↦ rw (good, empty, register) tt
      | inr filled ↦ rw (good, filled, register) (marshalled-Blames id host w _ refl)
    ]
  ]

  -- Register writes one idle row for a new id that is 32 lowercase hex digits, with a host that is
  -- not empty. It reports a bad id, an empty host and an id that has a row already for what they are,
  -- and then it changes nothing. A failure of the codec, which changes nothing, or of the SDK, which
  -- may hide the write, is reported only where the codec or the SDK failed. There is no other error.
  pub register-Reported :
      (id host : Text) (w : World)
      → let final = register r id host w in
        RegisterEffect id host (rows w) (rows final.1) final.0 × Blames id host w final.0
  register-Reported id host w = (register-RegisterEffect id host w, register-Blames id host w)

  delete_reply :
      (id : Text) (before : List Runner) (reply : Response (Unit {0}) × World)
      → DeleteEffect id before (rows reply.1) reply.0
      → let final = settle delete_failed delete_failed reply in
        DeleteDone id before (rows final.1) final.0
  delete_reply id before (done _, w) h = h
  delete_reply id before (conditional_check_failed, w) h = (refl, inl h)
  delete_reply id before (failed, w) h = (refl, h)

  -- Delete removes the row of the id, if there is one, and no other; it needs no row to be there.
  pub delete-DeleteDone :
      (id : Text) (w : World)
      → let final = delete r id w in DeleteDone id (rows w) (rows final.1) final.0
  unfolding delete
  delete-DeleteDone id w = delete_reply id (rows w) _ (delete_law id w)

  decoded :
      (id : Text) (before : List Runner) (row : Option Runner) (w : World) (y : Runner)
      → row ≡ find_row id before
      → find_row id before ≡ some y
      → FindEffect id before (or_fail row unmarshal_failed w).0
  decoded id before none w y e f = cc
  decoded id before (some x) w y e f = sym e

  get_reply :
      (id : Text) (before : List Runner) (reply : Response (Option Item) × World)
      → GetEffect unmarshal_map (find_row id before) reply.0
      → FindEffect id before (next (settle get_failed get_failed reply) (read_item r)).0
  get_reply id before (done none, w) h = h
  get_reply id before (done (some item), w) h = decoded id before _ w h.0.0 h.1 h.0.1
  get_reply id before (conditional_check_failed, w) h = refl
  get_reply id before (failed, w) h = refl

  -- FindByID returns the row of the id as it stands in the table, or that there is none.
  pub find_by_id-FindEffect : (id : Text) (w : World) → FindEffect id (rows w) (find_by_id r id w).0
  unfolding find_by_id
  find_by_id-FindEffect id w = get_reply id (rows w) _ (get_law id w).1
