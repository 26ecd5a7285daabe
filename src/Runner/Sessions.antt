-- ===== src/Runner/Sessions.antt =====
-- runner/handler.go, POST and DELETE /api/shell: a shell is opened and closed by its cookie. A `none`
-- answer stands for a loop cut off, which the shell manager does not have.
use hackathon.Common.{
  ℕ, ◌≡◌, ◌≢◌, refl, sym, ◌∙◌, subst, inl, inr, ◌⊎◌, Bool, true, false, Option, none, some,
  Bool-cases, if◌then◌else◌,
}
use hackathon.Text.{Text, text_eq, is_empty}
use hackathon.Text.Laws.{text_eq_refl, text_eq_sound}
use hackathon.Broker.Outcome.{Outcome, ok, err, out_of_fuel}
use hackathon.Runner.Manager.{
  Shells, ManagerError, shell_not_found, Table, lookup, close_result, create, delete_shell,
}
use hackathon.Runner.Manager.Lookups.{
  CreateEffect, create-CreateEffect, DeleteEffect, delete_shell-DeleteEffect,
}

-- A cookie with max-age -1 takes the one of the browser away.
pub data ShellCookie : Type 0 where
  set_shell_id : Text → ShellCookie
  clear_shell_id : ShellCookie

pub record ShellAnswer : Type 0 where
  pub status : ℕ
  pub cookie : Option ShellCookie

module _ (s : Shells) where
  open s use {World, Shell, close}

  abbrev pub Reply : Type 0
  Reply = ShellAnswer × Table Shell × World

  abbrev pub plain : ℕ → ShellAnswer
  plain status = record { status = status; cookie = none }

  abbrev pub created : Outcome ManagerError (Text × Shell) × Table Shell × World → Reply
  created (ok (id, shell), shells, w) =
      (record { status = 204; cookie = some (set_shell_id id) }, shells, w)
  created (err e, shells, w) = (plain 500, shells, w)
  created (out_of_fuel, shells, w) = (plain 0, shells, w)

  unfoldable pub handle_create_shell : Table Shell → World → Reply
  handle_create_shell shells w = created (create s shells w)

  abbrev pub deleted : Outcome ManagerError (Unit {0}) × Table Shell × World → Reply
  deleted (ok _, shells, w) = (record { status = 204; cookie = some clear_shell_id }, shells, w)
  deleted (err shell_not_found, shells, w) = (plain 404, shells, w)
  deleted (err e, shells, w) = (plain 500, shells, w)
  deleted (out_of_fuel, shells, w) = (plain 0, shells, w)

  unfoldable pub handle_delete_shell : Text → Table Shell → World → Reply
  handle_delete_shell id shells w =
      if is_empty id then (plain 400, shells, w) else deleted (delete_shell s id shells w)

  abbrev Closed : Table Shell → Reply → Type 0
  Closed before (answer, after, w) =
      ((answer.status ≡ 204) ⊎ (answer.status ≡ 500))
      × ((id : Text) → lookup id after ≡ lookup id before)

  -- Two maps that agree on one id and on all others agree.
  agree :
      (id : Text) (before mid after : Table Shell)
      → lookup id before ≡ none
      → lookup id after ≡ none
      → ((other : Text) → id ≢ other → lookup other mid ≡ lookup other before)
      → ((other : Text) → id ≢ other → lookup other after ≡ lookup other mid)
      → (other : Text) → lookup other after ≡ lookup other before
  agree id before mid after free gone first second other = elim (Bool-cases (text_eq id other)) [
    | inl same ↦
        subst (λ (t : Text). lookup t after ≡ lookup t before) (text_eq_sound id other same)
          (gone ∙ sym free)
    | inr differs ↦ second other (apart differs) ∙ first other (apart differs)
  ]
    where
      apart : text_eq id other ≡ false → id ≢ other
      apart differs e =
          absurd (cc (subst (λ (t : Text). text_eq id t ≡ false) (sym e) differs, text_eq_refl id))

  after_close :
      (before after : Table Shell) (w : World) (b : Bool)
      → ((id : Text) → lookup id after ≡ lookup id before)
      → Closed before (deleted (close_result s b, after, w))
  after_close before after w true same = (inl refl, same)
  after_close before after w false same = (inr refl, same)

  deleted-Closed :
      (id : Text) (shell : Shell) (before mid : Table Shell) (w : World)
      (reply : Outcome ManagerError (Unit {0}) × Table Shell × World)
      → lookup id before ≡ none
      → lookup id mid ≡ some shell
      → ((other : Text) → id ≢ other → lookup other mid ≡ lookup other before)
      → DeleteEffect s id mid w reply
      → Closed before (deleted reply)
  deleted-Closed id shell before mid w (result, after, w') free there others
        (inl (gone, failed, same, still)) =
      absurd (cc (gone, there))
  deleted-Closed id shell before mid w (result, after, w') free there others
        (inr (x, found, gone, rest, closed, ended)) =
      subst (λ (r : Outcome ManagerError (Unit {0})). Closed before (deleted (r, after, w')))
        (sym closed)
        (after_close before after w' (close x w).0
          (agree id before mid after free gone others rest))

  cookie_of :
      (before : Table Shell) (reply : Outcome ManagerError (Text × Shell) × Table Shell × World)
      (id : Text)
      → CreateEffect s before reply
      → (created reply).0.cookie ≡ some (set_shell_id id)
      → is_empty id ≡ false
      → Closed before (handle_delete_shell id (created reply).1 (created reply).2)
  unfolding handle_delete_shell
  cookie_of before (ok (key, shell), mid, w) id (free, there, others) h filled =
      let same : key ≡ id = cc h in
      subst (λ (t : Text). is_empty t ≡ false → Closed before (handle_delete_shell t mid w)) same
        (λ f. rw f (
          deleted-Closed key shell before mid w (delete_shell s key mid w) free there others
            (delete_shell-DeleteEffect s key mid w)))
        filled
  cookie_of before (err e, mid, w) id effect h filled = absurd (cc h)
  cookie_of before (out_of_fuel, mid, w) id effect h filled = elim effect [ ]

  -- If POST /api/shell set a cookie and its id is not empty, then DELETE /api/shell with that cookie
  -- answers 204, or 500 where Close failed, and either way every id is looked up as before the POST.
  pub delete-create_shell :
      (before : Table Shell) (w : World) (id : Text)
      → let (posted, mid, w1) = handle_create_shell before w in
        posted.cookie ≡ some (set_shell_id id)
        → is_empty id ≡ false
        → let (answer, after, w2) = handle_delete_shell id mid w1 in
          ((answer.status ≡ 204) ⊎ (answer.status ≡ 500))
          × ((other : Text) → lookup other after ≡ lookup other before)
  unfolding handle_create_shell
  delete-create_shell before w id h filled =
      cookie_of before (create s before w) id (create-CreateEffect s before w) h filled
