-- ===== src/Server/Status/Reports.antt =====
-- What the statistics say of the time and the pool, and when their texts run over their buffers.
use s.Prelude.{
  ℕ, ◌+◌, ◌*◌, ◌≤◌, ◌<◌, ◌≡◌, inl, inr, ◌++◌, length, length-append, arith, ltb, Bool-cases,
}
use s.Prelude.Int.{pos}
use s.Clib.{Text, codes, decimal}
use s.Clib.Width.{decimal-short, decimal-long}
use s.Outcome.{ok, err, invalid_parameter}
use s.Server.Listen.{hundredths, nearly_full}
use s.Server.Status.{
  sprintf_s, int_text, two_digits, Runtime, runtime_of, runtime_text, Level, normal, warning,
  exhausted, level_of, users_text, plain, usage_text, print_stats,
}

-- The level in words: fewer than 95 of 100 threads are busy; more, but not more than there are; more
-- clients than threads.
abbrev pub LevelMeans : ℕ → ℕ → Level → Type 0
LevelMeans count num_threads normal = count * 100 < num_threads * 95
LevelMeans count num_threads warning = (num_threads * 95 ≤ count * 100) × (count ≤ num_threads)
LevelMeans count num_threads exhausted = num_threads < count

level_of-LevelMeans :
    (count num_threads : ℕ) → LevelMeans count num_threads (level_of (pos count) num_threads)
level_of-LevelMeans count n = unfold level_of nearly_full hundredths in ground arith

runtime_of_lem :
    (elapsed : ℕ)
    → let r = runtime_of elapsed in
      (r.hours * 3600 + r.minutes * 60 + r.seconds ≡ elapsed)
      × ((r.minutes < 60) × (r.seconds < 60))
runtime_of_lem elapsed = unfold runtime_of in omega arith

length-users_text :
    (count n : ℕ)
    → length (users_text (pos count) n) ≡ 15 + length (decimal count) + length (decimal n)
length-users_text count n =
    unfold users_text int_text in
    omega (
      arith,
      length-append (decimal count) (codes "/" ++ (decimal n ++ codes "]")),
      length-append (decimal n) (codes "]"),
    )

two_digits-short : (n : ℕ) → n < 100 → length (two_digits n) ≤ 2
two_digits-short n h = unfold two_digits in ground (arith, decimal-short 0 n, decimal-short 1 n h)

two_digits-long : (n : ℕ) → n < 1000000 → length (two_digits n) ≤ 6
two_digits-long n h = unfold two_digits in ground (arith, decimal-short 0 n, decimal-short 5 n h)

length-runtime_text :
    (r : Runtime)
    → r.hours < 1000000
    → r.minutes < 100
    → r.seconds < 100
    → length (runtime_text r) < 32
length-runtime_text r h m s =
    unfold runtime_text in
    omega (
      arith,
      length-append (two_digits r.hours)
          (codes ":" ++ (two_digits r.minutes ++ (codes ":" ++ two_digits r.seconds))),
      length-append (two_digits r.minutes) (codes ":" ++ two_digits r.seconds),
      two_digits-long r.hours h,
      two_digits-short r.minutes m,
      two_digits-short r.seconds s,
    )

length-usage_text :
    (level : Level) (count n : ℕ)
    → length (usage_text level (pos count) n) ≤ 26 + length (decimal count) + length (decimal n)
length-usage_text normal count n = unfold usage_text in omega (arith, length-users_text count n)
length-usage_text warning count n =
    unfold usage_text in
    omega (arith, length-users_text count n, length-append (users_text (pos count) n) plain)
length-usage_text exhausted count n =
    unfold usage_text in
    omega (arith, length-users_text count n, length-append (users_text (pos count) n) plain)

length-usage_text_busy :
    (level : Level) (count n : ℕ)
    → n * 95 ≤ count * 100
    → LevelMeans count n level
    → length (usage_text level (pos count) n) ≡ 26 + length (decimal count) + length (decimal n)
length-usage_text_busy normal count n h m = absurd (omega arith)
length-usage_text_busy warning count n h m =
    unfold usage_text in
    omega (arith, length-users_text count n, length-append (users_text (pos count) n) plain)
length-usage_text_busy exhausted count n h m =
    unfold usage_text in
    omega (arith, length-users_text count n, length-append (users_text (pos count) n) plain)

sprintf_s-fits : (size : ℕ) (t : Text) → length t < size → sprintf_s size t ≡ ok t
sprintf_s-fits size t h = unfold sprintf_s in ground arith

sprintf_s-over : (size : ℕ) (t : Text) → size ≤ length t → sprintf_s size t ≡ err invalid_parameter
sprintf_s-over size t h = unfold sprintf_s in ground arith

-- The time, below 2 ^ 31 seconds, is split into hours, and minutes and seconds below 60, and the
-- level says how full the pool is; with fewer than 100 clients and threads all texts fit their
-- buffers and are printed.
pub print_stats-reports :
    (elapsed count num_threads : ℕ)
    → elapsed < 2147483648
    → count < 100
    → num_threads < 100
    → let r = runtime_of elapsed in
      let level = level_of (pos count) num_threads in
      (print_stats elapsed (pos count) num_threads
        ≡ ok (record {
          runtime = runtime_text r;
          level = level;
          usage = usage_text level (pos count) num_threads;
        }))
      × ((r.hours * 3600 + r.minutes * 60 + r.seconds ≡ elapsed)
          × ((r.minutes < 60) × ((r.seconds < 60) × LevelMeans count num_threads level)))
print_stats-reports elapsed count n he hc hn =
    let r = runtime_of elapsed in
    let level = level_of (pos count) n in
    let time = runtime_of_lem elapsed in
    let first =
      sprintf_s-fits 32 (runtime_text r)
        (length-runtime_text r (omega (arith, time)) (omega (arith, time)) (omega (arith, time))) in
    let second = sprintf_s-fits 32 (usage_text level (pos count) n) (
      omega
        (arith, length-usage_text level count n, decimal-short 1 count hc, decimal-short 1 n hn)) in
    (
      unfold print_stats in rw (first, second),
      (time.0, (time.1.0, (time.1.1, level_of-LevelMeans count n))),
    )

-- With at least 100 threads and as many clients, and at least 95 clients for 100 threads, the escape
-- sequences run over the buffer: the server is ended by its own statistics.
pub print_stats-crash :
    (elapsed count num_threads : ℕ)
    → 100 ≤ count
    → 100 ≤ num_threads
    → num_threads * 95 ≤ count * 100
    → print_stats elapsed (pos count) num_threads ≡ err invalid_parameter
print_stats-crash elapsed count n hc hn busy =
    let level = level_of (pos count) n in
    let long = sprintf_s-over 32 (usage_text level (pos count) n) (
      omega (
        arith,
        length-usage_text_busy level count n busy (level_of-LevelMeans count n),
        decimal-long 2 count hc,
        decimal-long 2 n hn,
      )) in
    elim (Bool-cases (ltb (length (runtime_text (runtime_of elapsed))) 32)) [
      | inl e ↦
          unfold print_stats in
          rw (sprintf_s-fits 32 (runtime_text (runtime_of elapsed)) (ground arith), long)
      | inr e ↦
          unfold print_stats in
          rw (sprintf_s-over 32 (runtime_text (runtime_of elapsed)) (ground arith))
    ]
