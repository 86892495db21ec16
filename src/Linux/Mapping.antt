-- ===== src/Linux/Mapping.antt =====
-- src/platform/linux.c: the files behind the memory objects, and the bounds of their mappings.
use vmopsbench.Common.{
  ℕ, ◌+◌, ◌≤◌, ◌≡◌, ◌≢◌, refl, ◌∙◌, ◌⊎◌, inl, inr, Bool, true, false, if◌then◌else◌, ◌==◌, ltb,
  ==_iff, Option, some, none, List, [], ◌∷◌, if_rule, if_true, if_false, arith, Bool-cases, All,
  find, remove,
}
use vmopsbench.Platform.{u64_mod}
use vmopsbench.Linux.{
  Call, memfd_create, ftruncate, mmap, Reply, Event, Kernel, Memobj, Sys, tell, refuses,
}

abbrev pub resized : (fd : ℕ) → Call → Reply → Option ℕ → Option ℕ
resized fd (memfd_create name huge) r size =
    if r.ok then (if r.value == fd then some 0 else size) else size
resized fd (ftruncate fd' n) r size = if r.ok then (if fd' == fd then some n else size) else size
resized fd _ r size = size

-- The size of the file at a descriptor. No file is ever closed.
abbrev pub file_size : (fd : ℕ) → List Event → Option ℕ
file_size fd [] = none
file_size fd (e ∷ t) = resized fd e.call e.reply (file_size fd t)

-- memfd_create returns a descriptor that no open file has.
abbrev pub FreshFile : Kernel → Type 0
FreshFile kernel =
    (t : List Event) (name : List ℕ) (huge : Bool)
    → let r = kernel t (memfd_create name huge) in r.ok ≡ true → file_size r.value t ≡ none

abbrev pub Fits : Call → List Event → Type 0
Fits (mmap fixed size huge fd offset) t =
    (n : ℕ) × (file_size fd t ≡ some n) × ((u64_mod ≤ offset + size) ⊎ (offset + size ≤ n))
Fits _ t = Unit {0}

-- Every mapping that was asked for lies within its file as it then was, unless its end is not a
-- number of 64 bits.
abbrev pub InFiles : List Event → Type 0
InFiles [] = Unit
InFiles (e ∷ t) = Fits e.call t × InFiles t

-- The file of every object has the object's size.
abbrev pub Behind : List Event → ℕ × Memobj → Type 0
Behind t (p, o) = file_size o.fd t ≡ some o.size

abbrev pub Backed : Sys → Type 0
Backed s = All (Behind s.trace) s.live × InFiles s.trace

-- The calls that change no file.
abbrev pub Harmless : Call → Type 0
Harmless c = (r : Reply) (fd : ℕ) (n : Option ℕ) → resized fd c r n ≡ n

module _ (kernel : Kernel) where
  pub tell-Behind :
      (c : Call) (s : Sys)
      → Harmless c
      → (live : List (ℕ × Memobj)) → All (Behind s.trace) live
      → All (Behind (tell kernel c s).trace) live
  tell-Behind c s safe [] h = tt
  tell-Behind c s safe ((p, o) ∷ live) (h, hs) =
      (safe (kernel s.trace c) o.fd (file_size o.fd s.trace) ∙ h, tell-Behind c s safe live hs)

  pub create-Behind :
      (path : List ℕ) (size : ℕ) (huge : Bool) (s : Sys)
      → (let f = kernel s.trace (memfd_create path huge) in
          f.ok ≡ true → file_size f.value s.trace ≡ none)
      → (live : List (ℕ × Memobj)) → All (Behind s.trace) live
      → All (Behind (tell kernel (memfd_create path huge) s).trace) live
  create-Behind path size huge s new [] h = tt
  create-Behind path size huge s new ((p, o) ∷ live) (h, hs) =
      (ground arith, create-Behind path size huge s new live hs)

  -- A file that no object stands on may be resized.
  pub truncate-Behind :
      (fd n : ℕ) (s : Sys) (live : List (ℕ × Memobj))
      → All (λ (q : ℕ × Memobj). q.1.fd ≢ fd) live
      → All (Behind s.trace) live
      → All (Behind (tell kernel (ftruncate fd n) s).trace) live
  truncate-Behind fd n s [] u h = tt
  truncate-Behind fd n s ((p, o) ∷ live) (u, us) (h, hs) =
      (ground (arith, ==_iff fd o.fd), truncate-Behind fd n s live us hs)

  pub Behind-apart :
      (fd : ℕ) (t : List Event)
      → file_size fd t ≡ none
      → (live : List (ℕ × Memobj)) → All (Behind t) live
      → All (λ (q : ℕ × Memobj). q.1.fd ≢ fd) live
  Behind-apart fd t e [] h = tt
  Behind-apart fd t e ((p, o) ∷ live) (h, hs) = (λ k. cc, Behind-apart fd t e live hs)

  pub Behind-remove :
      (p : ℕ) (t : List Event) (live : List (ℕ × Memobj))
      → All (Behind t) live
      → All (Behind t) (remove p live)
  unfolding remove
  Behind-remove p t [] h = tt
  Behind-remove p t ((q, o) ∷ live) (h, hs) =
      if_rule (All (Behind t)) (q == p) hs (h, Behind-remove p t live hs)

  Behind-find :
      (p : ℕ) (t : List Event) (live : List (ℕ × Memobj)) (o : Memobj)
      → find p live ≡ some o
      → All (Behind t) live
      → file_size o.fd t ≡ some o.size
  unfolding find
  Behind-find p t [] o e h = cc
  Behind-find p t ((q, o') ∷ live) o e (h, hs) = elim (Bool-cases (q == p)) [
    | inl same ↦ cc (if_true (some o') (find p live) same)
    | inr other ↦ Behind-find p t live o (cc (if_false (some o') (find p live) other)) hs
  ]

  pub tell-Backed :
      (c : Call) (s : Sys) → Harmless c → Fits c s.trace → Backed s → Backed (tell kernel c s)
  tell-Backed c s safe fits (b, f) = (tell-Behind c s safe s.live b, (fits, f))

  -- A mapping that is not refused lies within the file of the object.
  accepted-Fits :
      (fixed : Option ℕ) (p : ℕ) (o : Memobj) (size offset : ℕ) (huge : Bool) (s : Sys)
      → find p s.live ≡ some o
      → refuses o size offset ≡ false
      → Backed s
      → Fits (mmap fixed size huge o.fd offset) s.trace
  accepted-Fits fixed p o size offset huge s e r (b, f) = (
    o.size,
    Behind-find p s.trace s.live o e b,
    elim (Bool-cases (ltb (offset + size) u64_mod)) [
      | inl small ↦ inr (ground arith)
      | inr large ↦ inl (ground arith)
    ],
  )

  pub mmap-Backed :
      (fixed : Option ℕ) (p : ℕ) (o : Memobj) (size offset : ℕ) (huge : Bool) (s : Sys)
      → find p s.live ≡ some o
      → refuses o size offset ≡ false
      → Backed s
      → Backed (tell kernel (mmap fixed size huge o.fd offset) s)
  mmap-Backed fixed p o size offset huge s e r h =
      tell-Backed (mmap fixed size huge o.fd offset) s (λ _ _ _. refl)
        (accepted-Fits fixed p o size offset huge s e r h) h
