-- ===== src/Runner/Manager/Lookups.antt =====
-- runner/shell_manager.go: what each method does to every lookup.
use hackathon.Common.{
  ◌≡◌, ◌≢◌, refl, sym, ◌∙◌, inl, inr, ◌⊎◌, true, false, Option, none, some, [], ◌∷◌, Bool-cases,
}
use hackathon.Text.{Text, text_eq}
use hackathon.Text.Laws.{text_eq_refl, text_eq_sound}
use hackathon.Broker.Outcome.{Outcome, ok, err, out_of_fuel}
use hackathon.Runner.Manager.{
  Shells, ManagerError, shell_not_found, duplicate_shell_id, Table, lookup, drop_key, unless_taken,
  with_new, with_id, create, close_result, found_or_not, delete_shell,
}

lookup-drop_key_self :
    {Shell : Type 0} (id : Text) (shells : Table Shell) → lookup id (drop_key id shells) ≡ none
unfolding lookup drop_key
lookup-drop_key_self id [] = refl
lookup-drop_key_self id ((key, shell) ∷ shells) = elim (Bool-cases (text_eq key id)) [
  | inl same ↦ rw same (lookup-drop_key_self id shells)
  | inr other ↦ rw other (rw other (lookup-drop_key_self id shells))
]

-- Two ids that the test of one tells apart.
lookup-drop_key_other :
    {Shell : Type 0} (id other : Text) (shells : Table Shell)
    → id ≢ other
    → lookup other (drop_key id shells) ≡ lookup other shells
unfolding lookup drop_key
lookup-drop_key_other id other [] ne = refl
lookup-drop_key_other id other ((key, shell) ∷ shells) ne = elim (Bool-cases (text_eq key id)) [
  | inl same ↦ elim (Bool-cases (text_eq key other)) [
    | inl both ↦ absurd (ne (sym (text_eq_sound _ _ same) ∙ text_eq_sound _ _ both))
    | inr apart ↦ rw (same, apart) (lookup-drop_key_other id other shells ne)
  ]
  | inr differs ↦ rw differs (rw (lookup-drop_key_other id other shells ne) refl)
]

module _ (s : Shells) where
  open s use {World, Shell, gen_id, new_shell, close}

  -- The other ids are looked up as before.
  abbrev Untouched : Text → Table Shell → Table Shell → Type 0
  Untouched id before after = (other : Text) → id ≢ other → lookup other after ≡ lookup other before

  abbrev pub CreateEffect :
      Table Shell → Outcome ManagerError (Text × Shell) × Table Shell × World → Type 0
  CreateEffect before (ok (id, shell), after, w) =
      (lookup id before ≡ none)
      × (lookup id after ≡ some shell)
      × ((other : Text) → id ≢ other → lookup other after ≡ lookup other before)
  CreateEffect before (err (duplicate_shell_id id), after, w) =
      (after ≡ before)
      × ((mine : Shell) × (theirs : Shell) × (w' : World) × (lookup id before ≡ some theirs)
          × (w ≡ (close mine w').1))
  CreateEffect before (err e, after, w) = after ≡ before
  CreateEffect before (out_of_fuel, after, w) = ⊥

  unless_taken_lem :
      (id : Text) (shell : Shell) (before : Table Shell) (w : World) (o : Option Shell)
      → lookup id before ≡ o
      → CreateEffect before (unless_taken s id shell before w o)
  unfolding lookup
  unless_taken_lem id shell before w (some other) e = (refl, (shell, other, w, e, refl))
  unless_taken_lem id shell before w none e =
      (e, rw (text_eq_refl id) refl, λ other ne. apart other ne (Bool-cases (text_eq id other)))
    where
      apart :
          (other : Text)
          → id ≢ other
          → (text_eq id other ≡ true) ⊎ (text_eq id other ≡ false)
          → lookup other ((id, shell) ∷ before) ≡ lookup other before
      apart other ne (inl same) = absurd (ne (text_eq_sound _ _ same))
      apart other ne (inr differs) = rw differs refl

  with_new_lem :
      (id : Text) (before : Table Shell) (reply : Option Shell × World)
      → CreateEffect before (with_new s id before reply)
  with_new_lem id before (none, w) = refl
  with_new_lem id before (some shell, w) =
      unless_taken_lem id shell before w (lookup id before) refl

  with_id_lem :
      (before : Table Shell) (reply : Option Text × World)
      → CreateEffect before (with_id s before reply)
  with_id_lem before (none, w) = refl
  with_id_lem before (some id, w) = with_new_lem id before (new_shell w)

  -- If Create succeeds, its id was free, it is now that of the new shell, and all other ids are as
  -- before. If the id was taken, the map is as before and the new shell was closed; on every other
  -- error the map is as before.
  pub create-CreateEffect :
      (before : Table Shell) (w : World) → CreateEffect before (create s before w)
  unfolding create
  create-CreateEffect before w = with_id_lem before (gen_id w)

  abbrev pub DeleteEffect :
      Text → Table Shell → World → Outcome ManagerError (Unit {0}) × Table Shell × World → Type 0
  DeleteEffect id before w (result, after, w') =
      ((lookup id before ≡ none) × (result ≡ err shell_not_found) × (after ≡ before) × (w' ≡ w))
      ⊎ ((shell : Shell) × (lookup id before ≡ some shell)
          × (lookup id after ≡ none)
          × ((other : Text) → id ≢ other → lookup other after ≡ lookup other before)
          × (result ≡ close_result s (close shell w).0)
          × (w' ≡ (close shell w).1))

  found_or_not_lem :
      (id : Text) (before : Table Shell) (w : World) (o : Option Shell)
      → lookup id before ≡ o
      → DeleteEffect id before w (found_or_not s id before w o)
  found_or_not_lem id before w none e = inl (e, refl, refl, refl)
  found_or_not_lem id before w (some shell) e = inr (
    shell,
    e,
    lookup-drop_key_self id before,
    λ other ne. lookup-drop_key_other id other before ne,
    refl,
    refl,
  )

  -- Delete of an unknown id changes nothing. Otherwise the id is free afterwards even if Close fails,
  -- the other ids are as before, the shell was closed once, and the result is that of Close.
  pub delete_shell-DeleteEffect :
      (id : Text) (before : Table Shell) (w : World)
      → DeleteEffect id before w (delete_shell s id before w)
  unfolding delete_shell
  delete_shell-DeleteEffect id before w = found_or_not_lem id before w (lookup id before) refl
