-- ===== src/Runner/Manager.antt =====
-- runner/shell_manager.go: the shells by their ids. A shell, its start and its Close are parameters;
-- the map is a list of pairs, each id at most once.
pub mod Lookups
use hackathon.Common.{ℕ, Bool, true, false, Option, none, some, List, [], ◌∷◌, if◌then◌else◌}
use hackathon.Text.{Text, text_eq}
use hackathon.Broker.Outcome.{Outcome, ok, err, out_of_fuel}

pub record Shells : Type 1 where
  pub World : Type 0
  pub Shell : Type 0
  pub gen_id : World → Option Text × World
  pub new_shell : World → Option Shell × World
  pub close : Shell → World → Bool × World

pub data ManagerError : Type 0 where
  id_failed create_failed shell_not_found close_failed : ManagerError
  duplicate_shell_id : Text → ManagerError

abbrev pub Table : Type 0 → Type 0
Table Shell = List (Text × Shell)

unfoldable pub lookup : {Shell : Type 0} → Text → Table Shell → Option Shell
lookup id [] = none
lookup id ((key, shell) ∷ shells) =
    let rest = lookup id shells in if text_eq key id then some shell else rest

unfoldable pub drop_key : {Shell : Type 0} → Text → Table Shell → Table Shell
drop_key id [] = []
drop_key id ((key, shell) ∷ shells) =
    let rest = drop_key id shells in if text_eq key id then rest else (key, shell) ∷ rest

module _ (s : Shells) where
  open s use {World, Shell, gen_id, new_shell, close}

  -- What a method gives: its result, the map, and the world.
  abbrev pub Reply : Type 0 → Type 0
  Reply A = Outcome ManagerError A × Table Shell × World

  abbrev pub unless_taken : Text → Shell → Table Shell → World → Option Shell → Reply (Text × Shell)
  unless_taken id shell shells w (some other) =
      (err (duplicate_shell_id id), shells, (close shell w).1)
  unless_taken id shell shells w none = (ok (id, shell), (id, shell) ∷ shells, w)

  abbrev pub with_new : Text → Table Shell → Option Shell × World → Reply (Text × Shell)
  with_new id shells (none, w) = (err create_failed, shells, w)
  with_new id shells (some shell, w) = unless_taken id shell shells w (lookup id shells)

  abbrev pub with_id : Table Shell → Option Text × World → Reply (Text × Shell)
  with_id shells (none, w) = (err id_failed, shells, w)
  with_id shells (some id, w) = with_new id shells (new_shell w)

  unfoldable pub create : Table Shell → World → Reply (Text × Shell)
  create shells w = with_id shells (gen_id w)

  unfoldable pub get : Text → Table Shell → Outcome ManagerError Shell
  get id shells = elim (lookup id shells) [ none ↦ err shell_not_found | some shell ↦ ok shell ]

  abbrev pub close_result : Bool → Outcome ManagerError (Unit {0})
  close_result true = ok tt
  close_result false = err close_failed

  abbrev pub closing : Table Shell → Bool × World → Reply (Unit {0})
  closing shells (closed, w) = (close_result closed, shells, w)

  abbrev pub found_or_not : Text → Table Shell → World → Option Shell → Reply (Unit {0})
  found_or_not id shells w none = (err shell_not_found, shells, w)
  found_or_not id shells w (some shell) = closing (drop_key id shells) (close shell w)

  unfoldable pub delete_shell : Text → Table Shell → World → Reply (Unit {0})
  delete_shell id shells w = found_or_not id shells w (lookup id shells)

  -- The loop of CloseAll: all shells are closed, whatever fails; `true` if none failed.
  unfoldable pub close_each : Table Shell → World → Bool × World
  close_each [] w = (true, w)
  close_each ((id, shell) ∷ shells) w =
      let (closed, w1) = close shell w in
      let (rest, w2) = close_each shells w1 in ((if closed then rest else false), w2)

  unfoldable pub close_all : Table Shell → World → Reply (Unit {0})
  unfolding close_each
  close_all shells w = closing [] (close_each shells w)
