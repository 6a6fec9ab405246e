-- ===== src/File/Job/Reports.antt =====
-- The files that the includes of a job make it look at (agent/plugin/file/job.c: run_job).
use yella.Prelude.{
  ◌≡◌, refl, sym, ap, ◌∙◌, true, List, [], ◌∷◌, ◌++◌, Option, none, some, Text, All, Option-cases,
  inl, inr,
}
use yella.Sglib.Tree.{TreeOps}
use yella.Sglib.SortedList.{SortedOps}
use yella.File.Attribute.{Attribute}
use yella.File.Element.{Element}
use yella.File.Pattern.{first_unescaped_special_char, unescape_pattern}
use yella.File.Job.{World, process_elements}
use yella.File.Job.Crawl.{
  Entries, unset, is_included, crawl_dir, listed, looked_at, process_looked-append, crawl_included,
}
use yella.File.Job.Run.{top_dir, run_plain, run_pattern, run_one_include, run_includes}

module _ (listing : Text → Option Entries) where
  -- The files that an include makes a job look at, in turn.
  abbrev pub in_directory : Option Entries → List Text
  in_directory none = []
  in_directory (some entries) = listed entries

  abbrev pub directory_names : Option Text → List Text
  directory_names none = []
  directory_names (some dir) = in_directory (listing dir)

  abbrev pub names_by : Text → Option Text → Option Text → List Text
  names_by incl none none = []
  names_by incl none (some name) = name ∷ []
  names_by incl (some special) unescaped = directory_names (top_dir incl special)

  abbrev pub names_of : Text → List Text
  names_of incl = names_by incl (first_unescaped_special_char incl) (unescape_pattern incl)

  abbrev pub all_names : List Text → List Text
  all_names [] = []
  all_names (incl ∷ incls) = names_of incl ++ all_names incls

  -- An include that does not end in a backslash, and by which no file that a walk comes by is left
  -- out.
  abbrev pub CanRun : List Text → Text → Type 0
  CanRun excludes incl =
      (first_unescaped_special_char incl ≡ none
        → (name : Text) × (unescape_pattern incl ≡ some name))
      × ((special dir : Text) (entries : Entries)
          → first_unescaped_special_char incl ≡ some special
          → top_dir incl special ≡ some dir
          → listing dir ≡ some entries
          → All (λ n. is_included incl excludes n ≡ true) (listed entries))

  module _ {D L : Type 0} (rows : TreeOps D L) (ops : SortedOps L Attribute)
      (collect : Text → Option (Element L)) where
    crawled :
        (w : World D) (incl : Text) (excludes : List Text) (entries : Entries)
        → All (λ n. is_included incl excludes n ≡ true) (listed entries)
        → crawl_dir rows ops incl excludes collect entries w
          ≡ some (process_elements rows ops w (looked_at collect (listed entries)))
    unfolding crawl_dir
    crawled w incl excludes entries h =
        crawl_included rows ops incl excludes collect entries unset w h

    run_pattern-names :
        (w : World D) (incl : Text) (excludes : List Text) (dir : Option Text)
        → ((d : Text) (entries : Entries)
            → dir ≡ some d
            → listing d ≡ some entries
            → All (λ n. is_included incl excludes n ≡ true) (listed entries))
        → run_pattern rows ops listing collect w incl excludes dir
          ≡ some (process_elements rows ops w (looked_at collect (directory_names dir)))
    unfolding run_pattern process_elements
    run_pattern-names w incl excludes none h = refl
    run_pattern-names w incl excludes (some d) h = elim (Option-cases (listing d)) [
      | inl f ↦ rw (f, run_pattern) refl
      | inr (entries, f) ↦
          rw (f, run_pattern) (crawled w incl excludes entries (h d entries refl f))
    ]

    joined :
        (ns ms : List Text) (w : World D)
        → process_elements rows ops w (looked_at collect (ns ++ ms))
          ≡ process_elements rows ops
              (process_elements rows ops w (looked_at collect ns))
              (looked_at collect ms)
    joined ns ms w = process_looked-append rows ops [] [] collect ns ms w

    run_one_include-names :
        (w : World D) (incl : Text) (excludes : List Text)
        → CanRun excludes incl
        → run_one_include rows ops listing collect w incl excludes
          ≡ some (process_elements rows ops w (looked_at collect (names_of incl)))
    unfolding run_one_include run_plain process_elements
    run_one_include-names w incl excludes (plain, walks) =
        elim (Option-cases (first_unescaped_special_char incl)) [
          | inl e ↦ (let (name, f) = plain e in rw (e, run_one_include) (rw (f, run_plain) refl))
          | inr (special, e) ↦
              rw (e, run_one_include)
                (run_pattern-names w incl excludes (top_dir incl special)
                  (λ d entries. walks special d entries e))
        ]

    run_includes-names :
        (incls : List Text) (w : World D) (excludes : List Text)
        → All (CanRun excludes) incls
        → run_includes rows ops listing collect w incls excludes
          ≡ some (process_elements rows ops w (looked_at collect (all_names incls)))
    unfolding run_includes process_elements
    run_includes-names [] w excludes h = refl
    run_includes-names (incl ∷ incls) w excludes h =
        rw (run_one_include-names w incl excludes h.0, run_includes)
          (run_includes-names incls _ excludes h.1
            ∙ ap some (sym (joined (names_of incl) (all_names incls) w)))
