-- ===== src/Linux/Refines.antt =====
-- src/platform/linux.c: the backend does what utils.c relies on.
use vmopsbench.Common.{
  ℕ, ◌+◌, ◌≡◌, ◌≢◌, refl, ap, inl, inr, Bool, true, false, ==_iff, Option, some, none, List, [],
  ◌∷◌, if_cases, arith, find, held,
}
use vmopsbench.Platform.{PlatError}
use vmopsbench.Bench.World.{is_ok}
use vmopsbench.Config.{Status, success, failure}
use vmopsbench.Args.{Name, vm_create, vm_destroy, vm_map, Os, sentinel}
use vmopsbench.Args
use vmopsbench.Args.Objects.{created, destroyed, IsFresh}
use vmopsbench.Args.Leak.{LeavesNull}
use vmopsbench.Runner
use vmopsbench.Driver.Accounts.{Settled}
use vmopsbench.Linux.{
  Kernel, Memobj, Sys, plat_vm_create, plat_vm_destroy, plat_vm_map, map_object, ask, tell, mmap,
  refuses,
}
use vmopsbench.Linux.Objects.{
  FreshMalloc, Owned, Created, plat_vm_create-Created, Destroyed, plat_vm_destroy-Destroyed,
  mallocs, frees,
}
use vmopsbench.Linux.Backend.{
  to_reply, map_reply, destroy_reply, same_reply, exec, confirm, advance, replay, reply_in,
  linux_os,
}

module _ (kernel : Kernel) (path_of : Name → List ℕ) where
  abbrev pub Agrees : List Args.Event → Sys → Type 0
  Agrees t s = Owned s × ((x : ℕ) → created x t ≡ destroyed x t + held x s.live)

  -- What a call leaves after the history `t`, if its reply was `r`.
  abbrev Follows : (t : List Args.Event) → Args.Call → Option (Args.Reply × Sys) → Type 0
  Follows t c none = Unit
  Follows t c (some (r', s)) =
      (r : Args.Reply) → same_reply r r' ≡ true → Agrees (record { call = c; reply = r } ∷ t) s

  create-Follows :
      (t : List Args.Event) (s : Sys) (name : Name) (path : List ℕ) (size : ℕ) (huge : Bool)
      (r : (PlatError × Option ℕ) × Sys)
      → Created path size s r
      → Agrees t s
      → Follows t (vm_create name size huge) (some (to_reply r))
  create-Follows t s name path size huge ((e, none), s') (inl z, l, w) (_, a) r m =
      (w, λ x. ground (arith, a x, ap is_ok z, ap (held x) l))
  create-Follows t s name path size huge ((e, none), s') (inr z, l, w) (_, a) r m =
      (w, λ x. ground (arith, a x, ap is_ok z, ap (held x) l))
  create-Follows t s name path size huge ((e, some h), s') (z, _, _, (fd, l), w) (_, a) r m =
      (w, λ x. ground (arith, a x, ap is_ok z, ap (held x) l, ==_iff r.value h))

  destroy-Follows :
      (t : List Args.Event) (s : Sys) (p : ℕ) (r : Option (PlatError × Sys))
      → Destroyed p s r
      → Agrees t s
      → Follows t (vm_destroy p) (destroy_reply r)
  destroy-Follows t s p none d a = tt
  destroy-Follows t s p (some (e, s')) (z, h, w) (_, a) = λ r m. (w, λ x. omega (arith, a x, h x))

  map_object-Agrees :
      (o : Memobj) (size offset : ℕ) (huge : Bool) (s : Sys) (t : List Args.Event)
      → Agrees t s
      → Agrees t (map_object kernel o size offset huge s).1
  unfolding map_object
  map_object-Agrees o size offset huge s t a =
      let P = λ (r : (PlatError × Option ℕ) × Sys). Agrees t r.1 in
      let r = (ask kernel (mmap none size huge o.fd offset) s).0 in
      let done : Agrees t (tell kernel (mmap none size huge o.fd offset) s) =
        (λ x. omega (arith, a.0 x), a.1) in
      if_cases P (refuses o size offset) (λ _. a) (λ _. if_cases P r.ok (λ _. done) (λ _. done))

  map-Follows :
      (size p : ℕ) (s : Sys) (t : List Args.Event)
      → Agrees t s
      → Follows t (vm_map size p) (map_reply (plat_vm_map kernel size p 0 false s))
  unfolding plat_vm_map
  map-Follows size p s t a = by_object (find p s.live)
    where
      by_object :
          (r : Option Memobj)
          → Follows t (vm_map size p) (
              map_reply
                (elim r [ none ↦ none | some o ↦ some (map_object kernel o size 0 false s) ]))
      by_object none = tt
      by_object (some o) =
          λ r m. let b = map_object-Agrees o size 0 false s t a in (b.0, λ x. omega (arith, b.1 x))

  abbrev pub IfReached : List Args.Event → Option Sys → Type 0
  IfReached t none = Unit
  IfReached t (some s) = Agrees t s

  module _ (fresh : FreshMalloc kernel) where
    exec-Follows :
        (t : List Args.Event) (s : Sys) (c : Args.Call)
        → Agrees t s
        → Follows t c (exec kernel path_of c s)
    exec-Follows t s (vm_create name size huge) a =
        create-Follows t s name (path_of name) size huge
          (plat_vm_create kernel (path_of name) size huge s)
          (plat_vm_create-Created kernel fresh (path_of name) size huge s a.0) a
    exec-Follows t s (vm_destroy p) a =
        destroy-Follows t s p (plat_vm_destroy kernel p s)
          (plat_vm_destroy-Destroyed kernel p s a.0) a
    exec-Follows t s (vm_map size p) a = map-Follows size p s t a

    confirm-Agrees :
        (t : List Args.Event) (c : Args.Call) (r : Args.Reply) (q : Option (Args.Reply × Sys))
        → Follows t c q
        → IfReached (record { call = c; reply = r } ∷ t) (confirm kernel path_of r q)
    confirm-Agrees t c r none f = tt
    confirm-Agrees t c r (some (r', s)) f =
        if_cases (IfReached (record { call = c; reply = r } ∷ t)) (same_reply r r') (f r) (λ _. tt)

    advance-Agrees :
        (t : List Args.Event) (e : Args.Event) (q : Option Sys)
        → IfReached t q
        → IfReached (e ∷ t) (advance kernel path_of e q)
    advance-Agrees t e none h = tt
    advance-Agrees t e (some s) h =
        confirm-Agrees t e.call e.reply (exec kernel path_of e.call s) (exec-Follows t s e.call h)

    pub replay-Agrees : (t : List Args.Event) → IfReached t (replay kernel path_of t)
    replay-Agrees [] = (λ x. omega arith, λ x. omega arith)
    replay-Agrees (e ∷ t) = advance-Agrees t e (replay kernel path_of t) (replay-Agrees t)

    created-Fresh :
        (t : List Args.Event) (s : Sys) (path : List ℕ) (size : ℕ)
        (r : (PlatError × Option ℕ) × Sys)
        → Created path size s r
        → Agrees t s
        → (to_reply r).0.ok ≡ true
        → ((to_reply r).0.value ≢ 0)
          × (created (to_reply r).0.value t ≡ destroyed (to_reply r).0.value t)
    created-Fresh t s path size ((e, none), s') (inl z, _, _) a ok = absurd (cc (ap is_ok z))
    created-Fresh t s path size ((e, none), s') (inr z, _, _) a ok = absurd (cc (ap is_ok z))
    created-Fresh t s path size ((e, some h), s') (z, n, k, _, _) a ok =
        (n, omega (arith, a.1 h, k))

    linux_os-IsFresh : IsFresh (linux_os kernel path_of)
    linux_os-IsFresh t name size huge = reached (replay kernel path_of t) (replay-Agrees t)
      where
        reached :
            (q : Option Sys)
            → IfReached t q
            → let r = reply_in kernel path_of (vm_create name size huge) q in
              r.ok ≡ true → (r.value ≢ 0) × (created r.value t ≡ destroyed r.value t)
        reached none h ok = absurd (cc)
        reached (some s) h ok =
            created-Fresh t s (path_of name) size (plat_vm_create kernel (path_of name) size huge s)
              (plat_vm_create-Created kernel fresh (path_of name) size huge s h.0) h ok

    to_reply-Null :
        (s : Sys) (path : List ℕ) (size : ℕ) (r : (PlatError × Option ℕ) × Sys)
        → Created path size s r
        → (to_reply r).0.ok ≡ false
        → (to_reply r).0.value ≡ 0
    to_reply-Null s path size ((e, none), s') c ok = refl
    to_reply-Null s path size ((e, some h), s') (z, _, _, _, _) ok = absurd (cc (ap is_ok z))

    linux_os-LeavesNull : LeavesNull (linux_os kernel path_of)
    linux_os-LeavesNull t name size huge = reached (replay kernel path_of t) (replay-Agrees t)
      where
        reached :
            (q : Option Sys)
            → IfReached t q
            → let r = reply_in kernel path_of (vm_create name size huge) q in
              r.ok ≡ false → r.value ≡ 0
        reached none h ok = refl
        reached (some s) h ok =
            to_reply-Null s (path_of name) size (plat_vm_create kernel (path_of name) size huge s)
              (plat_vm_create-Created kernel fresh (path_of name) size huge s h.0) ok

-- What utils.c relies on is what the Linux backend does, after any history of its calls, if malloc
-- returns neither NULL nor memory in use: a memory object that is created is not NULL and is none of
-- those that stand, and a creation that fails leaves its pointer as it was, NULL.
pub linux_os_refines :
    (kernel : Kernel) (path_of : Name → List ℕ)
    → FreshMalloc kernel
    → IsFresh (linux_os kernel path_of) × LeavesNull (linux_os kernel path_of)
linux_os_refines kernel path_of fresh =
    (linux_os-IsFresh kernel path_of fresh, linux_os-LeavesNull kernel path_of fresh)

-- The memory of the pointer `y` after a benchmark: all of it is freed after a success, and all that
-- was created is left after a failure.
abbrev pub Freed : (y : ℕ) → List Args.Event → Status → Option Sys → Type 0
Freed y t status none = Unit {0}
Freed y t success (some s) = mallocs y s.trace ≡ frees y s.trace
Freed y t failure (some s) = mallocs y s.trace ≡ frees y s.trace + created y t

pub Settled-Freed :
    (kernel : Kernel) (path_of : Name → List ℕ) (x y : ℕ) (t : List Args.Event) (status : Status)
    (u' : List Runner.Event) (q : Option Sys)
    → IfReached kernel path_of t q
    → Settled x y [] [] status t u'
    → Freed y t status q
Settled-Freed kernel path_of x y t status u' none h d = tt
Settled-Freed kernel path_of x y t success u' (some s) h d = omega (arith, h.0 y, h.1 y, d.0)
Settled-Freed kernel path_of x y t failure u' (some s) h d = omega (arith, h.0 y, h.1 y, d.0)
