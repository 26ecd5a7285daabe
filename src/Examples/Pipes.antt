-- ===== src/Examples/Pipes.antt =====
-- A bash process that does not get its last pipe.
use hackathon.Common.{
  ◌≡◌, ◌≢◌, refl, ◌⊎◌, ◌||◌, ◌&&◌, not, inl, inr, Bool, true, false, Option, none, some,
}
use hackathon.Runner.Shell.Start.{Commander, new_bash_shell_from_commander}
use hackathon.Runner.Shell.Start.Pipes.{PipeLaws, LeftOver, shell_life, shell_life_lem}

-- The process's two pipes, and the end of stdin for the child: none.
abbrev same : Option Bool → Option Bool → Bool
same none none = true
same (some true) (some true) = true
same (some false) (some false) = true
same p q = false

abbrev World : Type 0
World = Option Bool → Bool

abbrev opening : Option Bool → World → World
opening p w q = same p q || w q

abbrev closing : Option Bool → World → World
closing p w q = not (same p q) && w q

abbrev failing : Commander
failing = record {
  World = World;
  Pipe = Option Bool;
  stdin_pipe = λ w. (some (some true), opening none (opening (some true) w));
  stdout_pipe = λ w. (some (some false), opening (some false) w);
  stderr_pipe = λ w. (none, w);
  close = closing;
  start = λ w. (true, closing none w);
  write_exit = λ p w. (true, w);
  wait = λ w. (true, closing (some false) (closing (some true) w));
}

abbrev Open : Option Bool → World → Type 0
Open q w = w q ≡ true

abbrev Owned : Option Bool → Type 0
Owned none = ⊥
Owned (some b) = Unit

abbrev Child : Option Bool → Type 0
Child none = Unit
Child (some b) = ⊥

opened : (p q : Option Bool) (w : World) → Open q (opening p w) → (q ≡ p) ⊎ Open q w
opened none none w h = inl refl
opened none (some b) w h = inr h
opened (some true) none w h = inr h
opened (some true) (some true) w h = inl refl
opened (some true) (some false) w h = inr h
opened (some false) none w h = inr h
opened (some false) (some true) w h = inr h
opened (some false) (some false) w h = inl refl

closed : (p q : Option Bool) (w : World) → Open q (closing p w) → (q ≢ p) × Open q w
closed none none w h = absurd (cc h)
closed none (some b) w h = (λ e. cc e, h)
closed (some true) none w h = (λ e. cc e, h)
closed (some true) (some true) w h = absurd (cc h)
closed (some true) (some false) w h = (λ e. cc e, h)
closed (some false) none w h = (λ e. cc e, h)
closed (some false) (some true) w h = (λ e. cc e, h)
closed (some false) (some false) w h = absurd (cc h)

waited :
    (q : Option Bool) (w : World)
    → Open q (closing (some false) (closing (some true) w))
    → Open q w × ¬ Owned q
waited none w h = (h, λ x. x)
waited (some true) w h = absurd (cc h)
waited (some false) w h = absurd (cc h)

both_ends :
    (q : Option Bool) (w : World)
    → Open q (opening none (opening (some true) w))
    → (q ≡ some true) ⊎ (Child q ⊎ Open q w)
both_ends none w h = inr (inl tt)
both_ends (some true) w h = inl refl
both_ends (some false) w h = inr (inr h)

launched : (q : Option Bool) (w : World) → Open q (closing none w) → Open q w × ¬ Child q
launched none w h = absurd (cc h)
launched (some b) w h = (h, λ x. x)

one_end :
    (q : Option Bool) (w : World)
    → Open q (opening (some false) w)
    → (q ≡ some false) ⊎ (Child q ⊎ Open q w)
one_end q w h = elim (opened (some false) q w h) [ inl same ↦ inl same | inr b ↦ inr (inr b) ]

failing-PipeLaws : PipeLaws failing Open Owned Child
failing-PipeLaws = record {
  stdin_law = λ w. (tt, λ q. both_ends q w);
  stdout_law = λ w. (tt, λ q. one_end q w);
  stderr_law = λ w q still. still;
  close_law = closed;
  start_law = launched;
  write_law = λ p q w still. still;
  wait_law = waited;
}

-- Nothing is open at first.
abbrev before : World
before q = false

still_open :
    Open none
      (shell_life failing failing-PipeLaws before (new_bash_shell_from_commander failing before))
unfolding new_bash_shell_from_commander
still_open = refl

-- The child's end of stdin is what stays open.
shell_life_example :
    LeftOver failing failing-PipeLaws before none (new_bash_shell_from_commander failing before).0
shell_life_example = shell_life_lem failing failing-PipeLaws before none still_open
