-- ===== src/Linux/Clock.antt =====
-- src/platform/linux.c: the clock, and the file of plat_save_logs.
use vmopsbench.Common.{
  ℕ, ◌+◌, ◌*◌, ◌%◌, ◌<◌, ◌≡◌, if◌then◌else◌, ◌==◌, Option, some, none, List, [], ◌∷◌, arith,
}
use vmopsbench.Platform.{u32_mod, u64_mod}
use vmopsbench.Bench.World.{Plat, delta_of, end_of}

-- plat_get_time, on what clock_gettime has written
unfoldable pub plat_get_time : (tv_sec tv_nsec : ℕ) → ℕ
plat_get_time tv_sec tv_nsec = (tv_sec * 1000000000 + tv_nsec) % u64_mod

unfoldable pub plat_convert_time : (ms : ℕ) → ℕ
plat_convert_time ms = ms * 1000000 % u64_mod

-- A thread with a time limit on Linux stops exactly that many milliseconds after the time that it has
-- read at its start, without a wrap, for a clock before the year 2540.
pub end_of_exact :
    (plat : Plat) (ms tv_sec tv_nsec : ℕ)
    → plat.convert_time ms ≡ plat_convert_time ms
    → 0 < ms
    → ms < u32_mod
    → tv_nsec < 1000000000
    → tv_sec < 18000000000
    → end_of (delta_of plat ms) (plat_get_time tv_sec tv_nsec)
      ≡ tv_sec * 1000000000 + tv_nsec + ms * 1000000
unfolding plat_get_time plat_convert_time delta_of end_of
end_of_exact plat ms tv_sec tv_nsec e p q n s =
    let d = plat.convert_time ms in
    let exact : d ≡ ms * 1000000 = omega (arith, e, q) in ground (arith, exact, p, q, n, s)

-- Without a limit, the time at which it stops is not reached by any later time that is read.
pub end_of_unlimited :
    (plat : Plat) (tv_sec tv_nsec : ℕ)
    → plat.convert_time 0 ≡ plat_convert_time 0
    → tv_nsec < 1000000000
    → tv_sec < 18000000000
    → plat_get_time tv_sec tv_nsec < end_of (delta_of plat 0) (plat_get_time tv_sec tv_nsec)
unfolding plat_get_time plat_convert_time delta_of end_of
end_of_unlimited plat tv_sec tv_nsec e n s = ground (arith, e, n, s)

-- The calls of the C library on files; NULL is 0.
pub data Call : Type 0 where
  fopen : (path : List ℕ) → Call
  fprintf : (file : ℕ) (log : List ℕ) → Call
  fclose : (file : ℕ) → Call

pub data Saved : Type 0 where
  err_file_open : Saved
  minus_one : Saved

-- plat_save_logs: its result with its calls, the latest first, where `file` is what fopen returns
unfoldable pub plat_save_logs :
    (file stdout : ℕ) (path : Option (List ℕ)) (log : List ℕ) → Saved × List Call
plat_save_logs file stdout none log = (minus_one, fprintf stdout log ∷ [])
plat_save_logs file stdout (some path) log =
    if file == 0
    then (err_file_open, fopen path ∷ [])
    else (minus_one, fclose file ∷ fprintf file log ∷ fopen path ∷ [])
