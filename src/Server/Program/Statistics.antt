-- ===== src/Server/Program/Statistics.antt =====
-- What `stat` shows of the system that runs beside the console.
use s.Prelude.{
  ℕ, ◌+◌, ◌*◌, ◌≤◌, ◌<◌, ◌≡◌, ◌∙◌, refl, sym, ap, subst, true, Option, none, some, List, [], ◌∷◌,
  ◌++◌, length, Option-cases, inl, inr,
}
use s.Prelude.Int.{pos}
use s.Clib.{Text, codes, text_eq}
use s.Clib.Strings.{text_eq_sound}
use s.Outcome.{
  ok, err, invalid_parameter, ◌>>=◌, >>=_ext, >>=_assoc, Holds, Holds-then, Holds-known,
  Holds-weaken, Holds-bind, Holds-eq-ok,
}
use s.Server.Messages.{kept_bytes, clean_string}
use s.Server.Sqlite.{Sqlite}
use s.Server.Startup.{Running}
use s.Server.Status.{Runtime, runtime_of, runtime_text, level_of, usage_text, print_stats}
use s.Server.Status.Reports.{LevelMeans, print_stats-reports, print_stats-crash}
use s.Server.Console.{Action, stat, action_of, buffer_of, Ending}
use s.Server.Main.{Output, reported, output_of}
use s.Server.Main.Stopping.{short_clean}
use s.Server.Listen.{Params}
use s.Server.System.{System, act, Reach, start, later, started_system}
use s.Server.System.Counting.{Reach-Balanced, started_system-Balanced}
use s.Server.Program.{
  Moment, acts_on, enters, interrupts, Program, shows, replied, reply, moment, moments,
  started_program,
}

stat-action_of : (command : Text) → text_eq command (codes "stat") ≡ true → action_of command ≡ stat
unfolding action_of text_eq
stat-action_of command e = rw (text_eq_sound command _ e) refl

-- Hours, and minutes and seconds below 60, that add up to the seconds.
abbrev pub IsTime : ℕ → Runtime → Type 0
IsTime elapsed t =
    (t.hours * 3600 + t.minutes * 60 + t.seconds ≡ elapsed) × (t.minutes < 60) × (t.seconds < 60)

-- The clients that wait for a thread and those that are served.
abbrev pub clients : {q : Sqlite} → System q → ℕ
clients s = s.listener.queued + length s.sessions

module _ {q : Sqlite} (n fuel : ℕ) (ending : Ending) where
  reply-system :
      (a : Action) (elapsed : ℕ) (p : Program q)
      → Holds (λ v. v.system ≡ p.system) (reply n ending elapsed a p)
  unfolding reply shows
  reply-system a elapsed p = Holds-then _ (output_of n elapsed p.system.listener.c_count a) _ kept
    where
      kept : (o : Option Output) → (replied ending p o).system ≡ p.system
      kept none = refl
      kept (some output) = refl

  abbrev Reached : System q → Program q → Type 0
  Reached s p = Reach n fuel (λ a. Unit {0}) s p.system

  -- A moment leaves the system, or is an act of it.
  moment-Reached :
      (m : Moment) (s : System q) (p : Program q)
      → Reached s p
      → Holds (Reached s) (moment n fuel ending m p)
  unfolding moment
  moment-Reached (acts_on a) s p before =
      Holds-known (Reached s) (act n fuel a p.system) _ (λ s' e. later before a tt e)
  moment-Reached (enters line elapsed) s p before =
      Holds-then (Reached s) (clean_string (buffer_of line p.command)) _ (λ command.
        Holds-weaken _ (Reached s) _
          (reply-system (action_of command) elapsed (record p { command = command }))
          (λ v same. subst (Reach n fuel (λ a. Unit {0}) s) (sym same) before))
  moment-Reached interrupts s p before = before

  moments-runs :
      (m : Moment) (ms : List Moment) (p : Program q)
      → p.exit ≡ none
      → moments n fuel ending (m ∷ ms) p ≡ moment n fuel ending m p >>= moments n fuel ending ms
  unfolding moments
  moments-runs m ms p e =
      let same : p ≡ record p { exit = none } = ap (λ x. record p { exit = x }) e in
      subst
        (λ u.
          moments n fuel ending (m ∷ ms) u ≡ moment n fuel ending m u >>= moments n fuel ending ms)
        (sym same) refl

  moments-left :
      (ms : List Moment) (p : Program q) (done : Ending)
      → p.exit ≡ some done
      → moments n fuel ending ms p ≡ ok p
  unfolding moments
  moments-left [] p done e = refl
  moments-left (m ∷ ms) p done e =
      let same : p ≡ record p { exit = some done } = ap (λ x. record p { exit = x }) e in
      subst (λ u. moments n fuel ending (m ∷ ms) u ≡ ok u) (sym same) refl

  moments-Reached :
      (ms : List Moment) (s : System q) (p : Program q)
      → Reached s p
      → Holds (Reached s) (moments n fuel ending ms p)
  moments-Reached [] s p before = unfold moments in before
  moments-Reached (m ∷ ms) s p before = elim (Option-cases p.exit) [
    | inl e ↦ rw (moments-runs m ms p e) (
        Holds-bind (Reached s) (Reached s) (moment n fuel ending m p) (moments n fuel ending ms)
          (moment-Reached m s p before) (λ v next. moments-Reached ms s v next))
    | inr (done, e) ↦ rw (moments-left (m ∷ ms) p done e) before
  ]

  moments-append :
      (before after : List Moment) (p : Program q)
      → moments n fuel ending (before ++ after) p
        ≡ moments n fuel ending before p >>= moments n fuel ending after
  moments-append [] after p = unfold moments in refl
  moments-append (m ∷ before) after p = elim (Option-cases p.exit) [
    | inl e ↦
        rw (moments-runs m (before ++ after) p e, moments-runs m before p e)
          (>>=_ext (moment n fuel ending m p) _ _ (λ v. moments-append before after v)
            ∙ sym (>>=_assoc (moment n fuel ending m p) _ _))
    | inr (done, e) ↦
        rw (moments-left (m ∷ (before ++ after)) p done e, moments-left (m ∷ before) p done e)
          (sym (moments-left after p done e))
  ]

  -- The line `stat` in a program that runs.
  stat_moment :
      (line : Text) (elapsed : ℕ) (rest : List Moment) (p : Program q)
      → length line < 512
      → text_eq (kept_bytes line) (codes "stat") ≡ true
      → p.exit ≡ none
      → moments n fuel ending (enters (some line) elapsed ∷ rest) p
        ≡ print_stats elapsed p.system.listener.c_count n >>= λ stats.
            moments n fuel ending rest
              (shows (reported stats) (record p { command = kept_bytes line }))
  unfolding moment reply output_of buffer_of
  stat_moment line elapsed rest p short is_stat runs =
      let it : action_of (kept_bytes line) ≡ stat = stat-action_of (kept_bytes line) is_stat in
      moments-runs (enters (some line) elapsed) rest p runs
      ∙ rw (short_clean line short, it)
          (>>=_assoc (print_stats elapsed p.system.listener.c_count n >>= _) _ _
            ∙ >>=_assoc (print_stats elapsed p.system.listener.c_count n) _ _)

module _ {q : Sqlite} (r : Running q) (params : Params) (fuel : ℕ) (ending : Ending)
    (ms : List Moment) (v : Program q)
    (run : moments r.num_threads fuel ending ms (started_program params r) ≡ ok v)
    (runs : v.exit ≡ none) (line : Text) (short : length line < 512)
    (is_stat : text_eq (kept_bytes line) (codes "stat") ≡ true) (elapsed : ℕ) where
  counted : v.system.listener.c_count ≡ pos (clients v.system)
  unfolding started_program
  counted =
      (Reach-Balanced r.num_threads
        (Holds-eq-ok (Reached r.num_threads fuel ending (started_system params r)) _ v
          (moments-Reached r.num_threads fuel ending ms (started_system params r)
            (started_program params r) start)
          run)
        (started_system-Balanced r.num_threads params r)).count

  -- A program that runs, from main's start on, answers `stat` by the time, and by the number of
  -- clients that wait for a thread or are served and how full that makes the pool, if the clients
  -- and the threads are fewer than 100 and the time is below 2 ^ 31 seconds.
  pub program-stat :
      elapsed < 2147483648
      → clients v.system < 100
      → r.num_threads < 100
      → let k = clients v.system in
        let level = level_of (pos k) r.num_threads in
        (moments r.num_threads fuel ending
            (ms ++ enters (some line) elapsed ∷ [])
            (started_program params r)
          ≡ ok (record v {
            command = kept_bytes line;
            outputs =
                v.outputs
                ++ reported (record {
                  runtime = runtime_text (runtime_of elapsed);
                  level = level;
                  usage = usage_text level (pos k) r.num_threads;
                })
                  ∷ [];
          }))
        × (IsTime elapsed (runtime_of elapsed) × LevelMeans k r.num_threads level)
  unfolding shows moments
  program-stat early few threads =
      let k = clients v.system in
      let reports = print_stats-reports elapsed k r.num_threads early few threads in
      (
        moments-append r.num_threads fuel ending ms (enters (some line) elapsed ∷ []) _
            ∙ rw run (
                stat_moment r.num_threads fuel ending line elapsed [] v short is_stat runs
                ∙ rw (counted, reports.0) refl),
        ((reports.1.0, reports.1.1.0, reports.1.1.1.0), reports.1.1.1.1),
      )

  -- With at least 100 threads, at least 100 clients that wait or are served, and at least 95 of them
  -- for 100 threads, the line `stat` ends the whole program by a fault, whatever was to follow.
  pub program-stat_crash :
      (rest : List Moment)
      → 100 ≤ clients v.system
      → 100 ≤ r.num_threads
      → r.num_threads * 95 ≤ clients v.system * 100
      → moments r.num_threads fuel ending
          (ms ++ enters (some line) elapsed ∷ rest)
          (started_program params r)
        ≡ err invalid_parameter
  program-stat_crash rest many threads busy =
      moments-append r.num_threads fuel ending ms (enters (some line) elapsed ∷ rest) _
      ∙ rw run (
          stat_moment r.num_threads fuel ending line elapsed rest v short is_stat runs
          ∙ rw
              (
                counted,
                print_stats-crash elapsed (clients v.system) r.num_threads many threads busy,
              )
              refl)
