-- ===== src/Durable/Refined.antt =====
-- `Replace` of internal/durable/file.go, step by step, does what the four behaviours of a disk say.
use gopherharness.Base.{◌≡◌, refl, Bool, true, false, Option, none, some, is_none}
use gopherharness.Durable.{Disk, lost, unsynced, healthy, accept, replace}
use gopherharness.Durable.Rename.{
  Content, absent, torn, cached, whole, Directory, Step, Answer, works, fails, dies, Progress, lose,
  replace_file, die, take_step, close_file, as_is, with_temporary, sync_temporary, renamed,
  remove_temporary, rename_over, created, make_directory, create, restrict, write, sync, close,
  rename, sync_directory,
}

abbrev pub content_of : {T : Type 0} → Option T → Content T
content_of none = absent
content_of (some t) = whole t

lose-content_of : {T : Type 0} (f : Option T) → lose (content_of f) ≡ content_of f
lose-content_of none = refl
lose-content_of (some t) = refl

abbrev running : {T : Type 0} → Directory T → Progress T
running d = record { ok = true; is_running = true; directory = d }

abbrev failing : {T : Type 0} → Directory T → Progress T
failing d = record { ok = false; is_running = true; directory = d }

module _ {T : Type 0} (P : Progress T → Type 0) where
  step_rule :
      (a : Answer) (does spoils : Directory T → Directory T) (d : Directory T)
      → P (running (does d))
      → P (failing (spoils d))
      → P (die (spoils d))
      → P (take_step a does spoils (running d))
  step_rule works does spoils d w f x = w
  step_rule fails does spoils d w f x = f
  step_rule dies does spoils d w f x = x

  close_rule :
      (a : Answer) (b : Bool) (d : Directory T)
      → P (record { ok = b; is_running = true; directory = d })
      → P (failing d)
      → P (die d)
      → P (close_file a (record { ok = b; is_running = true; directory = d }))
  close_rule works b d w f x = w
  close_rule fails b d w f x = f
  close_rule dies b d w f x = x

-- A run of `Replace` does what a behaviour of the disk says: the file holds what that leaves, and if
-- the function returns, it returns an error exactly if that reports one, and no temporary file is
-- left.
abbrev pub Refines : (E A : Type 0) {T : Type 0} → A → T → Option T → Progress T → Type 0
Refines E A a t file p =
    (x : Disk) × (p.directory.target ≡ content_of (replace {E = E} (accept a t) x file).file)
    × (p.is_running ≡ true
        → (p.ok ≡ is_none (replace {E = E} (accept a t) x file).failure)
          × (p.directory.temporary ≡ absent))

module _ (E A : Type 0) {T : Type 0} (a : A) (t : T) (file : Option T) (disk : Step → Answer) where
  abbrev Good : Progress T → Type 0
  Good p = Refines E A a t file p

  abbrev beside : Content T → Directory T
  beside c = record { target = content_of file; temporary = c }

  died : (c : Content T) → Good (die (beside c))
  died c = (lost, lose-content_of file, λ q. absurd (cc))

  gave_up : Good (failing (beside absent))
  gave_up = (lost, refl, λ _. (refl, refl))

  abbrev over : Directory T
  over = record { target = whole t; temporary = absent }

  finish : Good (remove_temporary (take_step (disk sync_directory) as_is as_is (running over)))
  finish =
      step_rule (λ p. Good (remove_temporary p)) (disk sync_directory) as_is as_is over
        (healthy, refl, λ _. (refl, refl)) (unsynced, refl, λ _. (refl, refl))
        (unsynced, refl, λ q. absurd (cc))

  abbrev rest : Progress T → Progress T
  rest p =
      remove_temporary
        (take_step (disk sync_directory) as_is as_is (take_step (disk rename) renamed as_is p))

  after_sync : Good (rest (close_file (disk close) (running (beside (whole t)))))
  after_sync =
      close_rule (λ p. Good (rest p)) (disk close) true (beside (whole t))
        (step_rule (λ p. Good (remove_temporary (take_step (disk sync_directory) as_is as_is p)))
          (disk rename) renamed as_is (beside (whole t)) finish gave_up (died (whole t)))
        gave_up (died (whole t))

  after_error : (c : Content T) → Good (rest (close_file (disk close) (failing (beside c))))
  after_error c =
      close_rule (λ p. Good (rest p)) (disk close) false (beside c) gave_up gave_up (died c)

  abbrev closed : Progress T → Progress T
  closed p = rest (close_file (disk close) p)

  renames : Good (rename_over disk t (running (beside torn)))
  renames =
      step_rule
        (λ p. Good (
          closed (
            take_step (disk sync) sync_temporary as_is
              (take_step (disk write) (with_temporary (cached t)) (with_temporary torn) p))))
        (disk restrict) as_is as_is (beside torn)
        (step_rule (λ p. Good (closed (take_step (disk sync) sync_temporary as_is p))) (disk write)
          (with_temporary (cached t)) (with_temporary torn) (beside torn)
          (step_rule (λ p. Good (closed p)) (disk sync) sync_temporary as_is (beside (cached t))
            after_sync (after_error (cached t)) (died (cached t)))
          (after_error torn) (died torn))
        (after_error torn) (died torn)

  -- Whichever steps of `Replace` fail, and wherever the process or the machine ends: the run does what
  -- one of the behaviours lost, unsynced and healthy says. So the file holds its old content or the
  -- whole new one, the new one if no error is returned, and no part of a content.
  pub replace_file-Refines :
      Refines E A a t file
        (replace_file disk t (record { target = content_of file; temporary = absent }))
  unfolding replace_file
  replace_file-Refines =
      step_rule (λ p. Good (created disk t (take_step (disk create) (with_temporary torn) as_is p)))
        (disk make_directory) as_is as_is (beside absent)
        (step_rule (λ p. Good (created disk t p)) (disk create) (with_temporary torn) as_is
          (beside absent) renames gave_up (died absent))
        gave_up (died absent)
