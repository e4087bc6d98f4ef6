-- ===== src/Durable/Rename.antt =====
-- internal/durable/file.go: `Replace`, step by step. A new content is written beside the file, synced,
-- and renamed over it. Each step works, fails, or is not reached because the process or the machine
-- ends before it.
use gopherharness.Base.{Bool, true, false}

-- What a file holds: nothing, a part of a content, a content that is not yet on the disk, or one that
-- is.
pub data Content (T : Type 0) : Type 0 where
  absent torn : Content T
  cached whole : T → Content T

pub record Directory (T : Type 0) : Type 0 where
  pub target : Content T
  pub temporary : Content T

pub data Step : Type 0 where
  make_directory create restrict write sync close rename sync_directory : Step

pub data Answer : Type 0 where
  works fails dies : Answer

-- The variable `err` as a test, whether the function still runs, and the two files.
pub record Progress (T : Type 0) : Type 0 where
  pub ok : Bool
  pub is_running : Bool
  pub directory : Directory T

module _ {T : Type 0} where
  -- What the end of a machine leaves of a file.
  abbrev pub lose : Content T → Content T
  lose absent = absent
  lose torn = torn
  lose (cached t) = torn
  lose (whole t) = whole t

  abbrev pub die : Directory T → Progress T
  die d = record {
    ok = false;
    is_running = false;
    directory = record { target = lose d.target; temporary = lose d.temporary };
  }

  abbrev pub synced : Content T → Content T
  synced absent = absent
  synced torn = torn
  synced (cached t) = whole t
  synced (whole t) = whole t

  -- A step that is taken while there is no error, with what it does and what its failure leaves.
  abbrev pub take_step :
      Answer → (Directory T → Directory T) → (Directory T → Directory T) → Progress T → Progress T
  take_step a does spoils p = elim p.is_running [
    | false ↦ p
    | true ↦ elim p.ok [
      | false ↦ p
      | true ↦ elim a [
        | works ↦ record p { directory = does p.directory }
        | fails ↦ record p { ok = false; directory = spoils p.directory }
        | dies ↦ die (spoils p.directory)
      ]
    ]
  ]

  abbrev pub as_is : Directory T → Directory T
  as_is d = d

  abbrev pub with_temporary : Content T → Directory T → Directory T
  with_temporary c d = record d { temporary = c }

  abbrev pub sync_temporary : Directory T → Directory T
  sync_temporary d = record d { temporary = synced d.temporary }

  abbrev pub renamed : Directory T → Directory T
  renamed d = record { target = d.temporary; temporary = absent }

  -- `f.Close`, which is called behind an error too, and whose error is joined.
  abbrev pub close_file : Answer → Progress T → Progress T
  close_file a p = elim p.is_running [
    | false ↦ p
    | true ↦ elim a [ works ↦ p | fails ↦ record p { ok = false } | dies ↦ die p.directory ]
  ]

  -- The deferred `os.Remove` of the temporary file.
  abbrev pub remove_temporary : Progress T → Progress T
  remove_temporary p = elim p.is_running [
    | false ↦ p
    | true ↦ record p { directory = with_temporary absent p.directory }
  ]

  abbrev pub fill_temporary : (Step → Answer) → T → Progress T → Progress T
  fill_temporary disk t p = take_step (disk sync) sync_temporary as_is (
      take_step (disk write) (with_temporary (cached t)) (with_temporary torn)
        (take_step (disk restrict) as_is as_is p))

  -- The part behind `os.CreateTemp`, if that made a file.
  abbrev pub rename_over : (Step → Answer) → T → Progress T → Progress T
  rename_over disk t p = remove_temporary (
      take_step (disk sync_directory) as_is as_is
        (take_step (disk rename) renamed as_is (close_file (disk close) (fill_temporary disk t p))))

  abbrev pub created : (Step → Answer) → T → Progress T → Progress T
  created disk t p = elim p.is_running [
    | false ↦ p
    | true ↦ elim p.ok [ false ↦ p | true ↦ rename_over disk t p ]
  ]

  unfoldable pub replace_file : (Step → Answer) → T → Directory T → Progress T
  replace_file disk t d = created disk t (
      take_step (disk create) (with_temporary torn) as_is (
        take_step (disk make_directory) as_is as_is
          (record { ok = true; is_running = true; directory = d })))
