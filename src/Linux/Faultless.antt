-- ===== src/Linux/Faultless.antt =====
-- src/platform/linux.c: a benchmark that has started its threads has accessed no freed object.
use vmopsbench.Common.{
  ℕ, ◌<◌, ◌≡◌, sym, ap, ◌∙◌, inl, inr, Bool, true, false, if◌then◌else◌, ◌==◌, ==_refl, Option,
  some, none, List, [], ◌∷◌, arith, Bool-cases, find, remove, held,
}
use mathlib.Core.Path.{subst}
use vmopsbench.Platform.{err_ok}
use vmopsbench.Args.{Name, vm_create, vm_destroy, vm_map, Os}
use vmopsbench.Args
use vmopsbench.Args.Orderly.{Orderly, Allowed}
use vmopsbench.Linux.{Kernel, Memobj, Sys, plat_vm_destroy, plat_vm_map, map_object, tell, free}
use vmopsbench.Linux.Objects.{FreshMalloc}
use vmopsbench.Linux.Backend.{
  map_reply, destroy_reply, same_reply, exec, confirm, advance, replay, answer, reply_in, linux_os,
}
use vmopsbench.Linux.Refines.{Agrees, IfReached, replay-Agrees}

-- Something.
abbrev pub IsSome : {A : Type 0} → Option A → Type 0
IsSome none = ⊥
IsSome (some a) = Unit {0}

held-find : (p : ℕ) (live : List (ℕ × Memobj)) → 0 < held p live → IsSome (find p live)
unfolding find
held-find p [] h = absurd (omega (arith, h))
held-find p ((q, o) ∷ live) h = elim (Bool-cases (q == p)) [
  | inl same ↦ subst (λ (b : Bool). IsSome (if b then some o else find p live)) (sym same) tt
  | inr other ↦
      subst (λ (b : Bool). IsSome (if b then some o else find p live)) (sym other)
        (held-find p live (ground (arith, h)))
]

same_reply_refl : (r : Args.Reply) → same_reply r r ≡ true
same_reply_refl r = elim (Bool-cases r.ok) [
  | inl e ↦ ground (arith, ==_refl r.value)
  | inr e ↦ ground (arith, ==_refl r.value)
]

module _ (kernel : Kernel) (path_of : Name → List ℕ) where
  destroy-IsSome :
      (p : ℕ) (s : Sys)
      → IsSome (find p s.live)
      → IsSome (destroy_reply (plat_vm_destroy kernel p s))
  unfolding plat_vm_destroy
  destroy-IsSome p s h = by_object (find p s.live) h
    where
      by_object :
          (r : Option Memobj)
          → IsSome r
          → IsSome (
              destroy_reply (elim r [
                | none ↦ none
                | some o ↦ some (err_ok, tell kernel (free p) (record s { live = remove p s.live }))
              ]))
      by_object none h = h
      by_object (some o) h = tt

  map-IsSome :
      (size p : ℕ) (s : Sys)
      → IsSome (find p s.live)
      → IsSome (map_reply (plat_vm_map kernel size p 0 false s))
  unfolding plat_vm_map
  map-IsSome size p s h = by_object (find p s.live) h
    where
      by_object :
          (r : Option Memobj)
          → IsSome r
          → IsSome (
              map_reply
                (elim r [ none ↦ none | some o ↦ some (map_object kernel o size 0 false s) ]))
      by_object none h = h
      by_object (some o) h = tt

  exec-IsSome :
      (c : Args.Call) (t : List Args.Event) (s : Sys)
      → Agrees kernel path_of t s
      → Allowed c t
      → IsSome (exec kernel path_of c s)
  exec-IsSome (vm_create name size huge) t s a w = tt
  exec-IsSome (vm_destroy p) t s a w =
      destroy-IsSome p s (held-find p s.live (omega (arith, a.1 p, w)))
  exec-IsSome (vm_map size p) t s a w =
      map-IsSome size p s (held-find p s.live (omega (arith, a.1 p, w)))

  confirm-IsSome :
      (r : Args.Reply) (q : Option (Args.Reply × Sys))
      → r ≡ answer kernel path_of q
      → IsSome q
      → IsSome (confirm kernel path_of r q)
  confirm-IsSome r none e h = h
  confirm-IsSome r (some (r', s)) e h =
      subst (λ (b : Bool). IsSome (if b then some s else none))
        (sym (ap (λ (z : Args.Reply). same_reply z r') e ∙ same_reply_refl r')) tt

  advance-IsSome :
      (e : Args.Event) (t : List Args.Event) (q : Option Sys)
      → e.reply ≡ reply_in kernel path_of e.call q
      → Allowed e.call t
      → IfReached kernel path_of t q
      → IsSome q
      → IsSome (advance kernel path_of e q)
  advance-IsSome e t none k w a h = h
  advance-IsSome e t (some s) k w a h =
      confirm-IsSome e.reply (exec kernel path_of e.call s) k (exec-IsSome e.call t s a w)

-- A history of the Linux backend in which no call names an object that does not stand ends in a state:
-- none of its calls has accessed memory that holds no object.
pub replay-IsSome :
    (kernel : Kernel) (path_of : Name → List ℕ) (t : List Args.Event)
    → FreshMalloc kernel
    → Orderly (linux_os kernel path_of) t
    → IsSome (replay kernel path_of t)
replay-IsSome kernel path_of [] fresh h = tt
replay-IsSome kernel path_of (e ∷ t) fresh (k, w, h) =
    advance-IsSome kernel path_of e t (replay kernel path_of t) k w
      (replay-Agrees kernel path_of fresh t) (replay-IsSome kernel path_of t fresh h)
