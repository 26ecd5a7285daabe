-- ===== src/Runner/Router/History.antt =====
-- runner/handler.go: which shells the requests of a process reach.
use hackathon.Common.{
  ◌≡◌, refl, sym, ◌∙◌, subst, ◌⊎◌, inl, inr, false, Option, none, some, List, [], ◌∷◌, Bool-cases,
}
use hackathon.Text.{Text, text_eq, is_empty}
use hackathon.Text.Laws.{text_eq_refl, text_eq_sound}
use hackathon.Broker.Outcome.{Outcome, ok, err, out_of_fuel}
use hackathon.Runner.Manager.{
  ManagerError, shell_not_found, duplicate_shell_id, Table, lookup, create, delete_shell,
}
use hackathon.Runner.Manager.Lookups.{
  CreateEffect, create-CreateEffect, DeleteEffect, delete_shell-DeleteEffect,
}
use hackathon.Runner.Sessions.{
  set_shell_id, created, deleted, handle_create_shell, handle_delete_shell,
}
use hackathon.Runner.Execute.{SseEvent, streamed, AuditLine, Request, handle_execute}
use hackathon.Runner.Execute.Effect.{Accepted, ExecuteEffect}
use hackathon.Runner.Execute.Gate.{handle_execute-ExecuteEffect}
use hackathon.Runner.Router.{
  ApiRequest, ApiRoute, health_route, create_shell_route, delete_shell_route, execute_route,
  ApiAnswer, shell_answer, Parts, surroundings, Engine, of_shells, serve, handle, api_route,
}

module _ (p : Parts) where
  open p use {shells}
  open shells use {World, Shell}

  -- The engine after some requests, the last of them first.
  unfoldable pub after : World → List ApiRequest → Engine p
  after w [] = ([], w)
  after w (req ∷ earlier) = (handle p req (after w earlier)).1

  -- The cookie of a new shell.
  abbrev pub opens : Text → ApiAnswer
  opens id = shell_answer (record { status = 204; cookie = some (set_shell_id id) })

  -- The id has had this shell ever since a request opened it.
  abbrev pub OpenSince : World → Text → Shell → List ApiRequest → Type 0
  OpenSince w id shell [] = ⊥
  OpenSince w id shell (req ∷ earlier) =
      (lookup id (after w (req ∷ earlier)).0 ≡ some shell)
      × (((handle p req (after w earlier)).0 ≡ opens id) ⊎ OpenSince w id shell earlier)

  -- One request: it opened the shell, or the shell was there.
  abbrev pub Reached : Text → Shell → Table Shell → ApiAnswer × Engine p → Type 0
  Reached id shell before (answer, (table, w)) =
      lookup id table ≡ some shell → (answer ≡ opens id) ⊎ (lookup id before ≡ some shell)

  created_lem :
      (id : Text) (shell : Shell) (before : Table Shell)
      (o : Outcome ManagerError (Text × Shell) × Table Shell × World)
      → CreateEffect shells before o
      → Reached id shell before (of_shells p (created shells o))
  created_lem id shell before (ok (new_id, mine), table, w) (free, there, others) h =
      elim (Bool-cases (text_eq new_id id)) [
        | inl same ↦ inl (rw (text_eq_sound new_id id same) refl)
        | inr differs ↦ inr (sym (others id (λ e. apart e differs)) ∙ h)
      ]
    where
      apart : new_id ≡ id → text_eq new_id id ≡ false → ⊥
      apart e differs =
          absurd (
            cc
              (subst (λ (t : Text). text_eq new_id t ≡ false) (sym e) differs, text_eq_refl new_id))
  created_lem id shell before (err (duplicate_shell_id other), table, w) e h = inr (rw (← e.0) h)
  created_lem id shell before (err _, table, w) e h = inr (rw (← e) h)
  created_lem id shell before (out_of_fuel, table, w) e h = absurd e

  deleted_table :
      (o : Outcome ManagerError (Unit {0}) × Table Shell × World)
      → (of_shells p (deleted shells o)).1.0 ≡ o.1
  deleted_table (ok x, table, w) = refl
  deleted_table (err shell_not_found, table, w) = refl
  deleted_table (err _, table, w) = refl
  deleted_table (out_of_fuel, table, w) = refl

  kept_lem :
      (id gone : Text) (shell : Shell) (before : Table Shell) (w : World)
      (o : Outcome ManagerError (Unit {0}) × Table Shell × World)
      → DeleteEffect shells gone before w o
      → lookup id o.1 ≡ some shell
      → lookup id before ≡ some shell
  kept_lem id gone shell before w (out, table, w') (inl (free, nothing, same, still)) h =
      rw (← same) h
  kept_lem id gone shell before w (out, table, w') (inr (old, was, free, others, result, world)) h =
      elim (Bool-cases (text_eq gone id)) [
        | inl same ↦
            absurd (
              cc (subst (λ (t : Text). lookup t table ≡ none) (text_eq_sound gone id same) free, h))
        | inr differs ↦ sym (others id (λ e. apart e differs)) ∙ h
      ]
    where
      apart : gone ≡ id → text_eq gone id ≡ false → ⊥
      apart e differs =
          absurd
            (cc (subst (λ (t : Text). text_eq gone t ≡ false) (sym e) differs, text_eq_refl gone))

  delete_lem :
      (cookie id : Text) (shell : Shell) (before : Table Shell) (w : World)
      → Reached id shell before (of_shells p (handle_delete_shell shells cookie before w))
  unfolding handle_delete_shell
  delete_lem cookie id shell before w = elim (Bool-cases (is_empty cookie)) [
    | inl empty ↦ rw empty (λ h. inr h)
    | inr filled ↦ rw filled (λ h. inr (
        kept_lem id cookie shell before w (delete_shell shells cookie before w)
          (delete_shell-DeleteEffect shells cookie before w)
          (rw (← deleted_table (delete_shell shells cookie before w)) h)))
  ]

  serve-Reached :
      (req : ApiRequest) (id : Text) (shell : Shell) (before : Table Shell) (w : World)
      (route : Option ApiRoute)
      → Reached id shell before (serve p req (before, w) route)
  unfolding handle_create_shell
  serve-Reached req id shell before w none h = inr h
  serve-Reached req id shell before w (some health_route) h = inr h
  serve-Reached req id shell before w (some create_shell_route) h =
      created_lem id shell before (create shells before w) (create-CreateEffect shells before w) h
  serve-Reached req id shell before w (some delete_shell_route) h =
      delete_lem req.request.shell_cookie id shell before w h
  serve-Reached req id shell before w (some execute_route) h = inr h

  handle-Reached :
      (req : ApiRequest) (id : Text) (shell : Shell) (e : Engine p)
      → Reached id shell e.0 (handle p req e)
  unfolding handle
  handle-Reached req id shell (before, w) =
      serve-Reached req id shell before w (api_route req.method req.path)

  opened_since :
      (w : World) (id : Text) (shell : Shell) (reqs : List ApiRequest)
      → lookup id (after w reqs).0 ≡ some shell
      → OpenSince w id shell reqs
  unfolding after lookup
  opened_since w id shell [] h = cc
  opened_since w id shell (req ∷ earlier) h =
      elim (handle-Reached req id shell (after w earlier) h) [
        | inl opened ↦ (h, inl opened)
        | inr before ↦ (h, inr (opened_since w id shell earlier before))
      ]

  -- What a command that streams went through, after some requests.
  abbrev pub RanIn :
      World → List ApiRequest → Request → List SseEvent → List AuditLine → World → Type 0
  RanIn w earlier req events audit w' =
      (a : Accepted (surroundings p) (after w earlier).0 req (after w earlier).1 events audit w')
      × OpenSince w req.shell_cookie a.shell earlier

  ran_in :
      (w : World) (earlier : List ApiRequest) (req : Request) (events : List SseEvent)
      (audit : List AuditLine) (w' : World)
      → Accepted (surroundings p) (after w earlier).0 req (after w earlier).1 events audit w'
      → RanIn w earlier req events audit w'
  ran_in w earlier req events audit w' a =
      (a, opened_since w req.shell_cookie a.shell earlier a.found)

  -- Whatever requests a process has answered since its start: a command streams only from a shell that
  -- one of them opened, by the answer that set the cookie which the command comes with, and which has
  -- kept its place under that cookie ever since; and the validator found the command safe.
  pub handle_execute-RanIn :
      (w : World) (earlier : List ApiRequest) (req : Request) (events : List SseEvent)
      (audit : List AuditLine) (w' : World)
      → handle_execute (surroundings p) (after w earlier).0 req (after w earlier).1
        ≡ (streamed events, audit, w')
      → RanIn w earlier req events audit w'
  handle_execute-RanIn w earlier req events audit w' h = ran_in w earlier req events audit w' (
      subst (ExecuteEffect (surroundings p) (after w earlier).0 req (after w earlier).1) h
        (handle_execute-ExecuteEffect (surroundings p) (after w earlier).0 req (after w earlier).1))
