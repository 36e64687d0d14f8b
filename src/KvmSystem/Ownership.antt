-- ===== src/KvmSystem/Ownership.antt =====
-- Who owns the descriptor of /dev/kvm in src/KvmSystem.cpp.
use Prim.Native.String.{String}
use min_bp.Prelude.{
  ℕ, ◌==◌, ==_iff, ==_refl, ◌≡◌, refl, ◌∙◌, Bool, true, false, not, ◌&&◌, ◌||◌, none, some, inl,
  inr, Bool-cases,
}
use min_bp.Prelude.Result.{Result, ok, err, Result-cases}
use min_bp.Kvm.{Kvm}
use min_bp.KvmSystem.{
  KvmSystem, kvm_api_version, probe, probe_mmap_size, open_system, release, assign, move,
}

-- What the code relies on, with `is_open` for the descriptors of the process: opening gives a descriptor
-- that was not open, a failed opening changes none, and closing closes that descriptor alone.
pub record Descriptors {K : Type 0} (kvm : Kvm K) : Type 0 where
  pub is_open : K → ℕ → Bool
  pub opened :
      (path : String) (k : K) (fd : ℕ)
      → (kvm.open_path path k).0 ≡ ok fd
      → (is_open k fd ≡ false)
        × ((x : ℕ) → is_open (kvm.open_path path k).1 x ≡ (x == fd || is_open k x))
  pub open_refused :
      (path : String) (k : K) (e x : ℕ)
      → (kvm.open_path path k).0 ≡ err e
      → is_open (kvm.open_path path k).1 x ≡ is_open k x
  pub closed :
      (fd : ℕ) (k : K) (x : ℕ) → is_open (kvm.close fd k) x ≡ (not (x == fd) && is_open k x)

module _ {K : Type 0} (kvm : Kvm K) (laws : Descriptors kvm) where
  -- Opening and closing one descriptor leaves every descriptor as it was.
  open_closed :
      (path : String) (k : K) (fd : ℕ)
      → (kvm.open_path path k).0 ≡ ok fd
      → (x : ℕ) → laws.is_open (kvm.close fd (kvm.open_path path k).1) x ≡ laws.is_open k x
  open_closed path k fd h x =
      let (fresh, grown) = laws.opened path k fd h in
      laws.closed fd (kvm.open_path path k).1 x
      ∙ rw (grown x) (elim (Bool-cases (x == fd)) [
        | inl e ↦ rw (e, (==_iff x fd).0 e, fresh) refl
        | inr e ↦ rw e refl
      ])

  -- What the probe gives: an error with the descriptor closed, or an object that holds it.
  data Probed (fd : ℕ) (k : K) : Result KvmSystem × K → Type 0 where
    refused : (e : ℕ) → Probed fd k (err e, kvm.close fd k)
    held :
        (s : KvmSystem) → s.fd ≡ some fd → s.api_version ≡ kvm_api_version → Probed fd k (ok s, k)

  probe_mmap_size-Probed :
      (fd version : ℕ) (k : K)
      → version ≡ kvm_api_version
      → Probed fd k (probe_mmap_size kvm fd version k)
  unfolding probe_mmap_size
  probe_mmap_size-Probed fd version k v = elim (Result-cases (kvm.get_vcpu_mmap_size (some fd) k)) [
    | inl (size, e) ↦ rw (e, probe_mmap_size) (Probed.held _ refl v)
    | inr (x, e) ↦ rw (e, probe_mmap_size) (Probed.refused _)
  ]

  probe-Probed : (fd : ℕ) (k : K) → Probed fd k (probe kvm fd k)
  unfolding probe
  probe-Probed fd k = elim (Result-cases (kvm.get_api_version (some fd) k)) [
    | inr (x, e) ↦ rw (e, probe) (Probed.refused _)
    | inl (version, e) ↦ elim (Bool-cases (version == kvm_api_version)) [
      | inl v ↦ rw (e, probe, v) (probe_mmap_size-Probed fd version k ((==_iff _ _).0 v))
      | inr v ↦ rw (e, probe, v) (Probed.refused _)
    ]
  ]

  abbrev Kept : K → K → Type 0
  Kept k k' = (x : ℕ) → laws.is_open k' x ≡ laws.is_open k x

  -- How an opening ends that was at `k`: with an error and the descriptors as they were, or with an
  -- object that holds a new descriptor, of the right version, whose destructor restores them.
  pub data Opened (k : K) : Result KvmSystem × K → Type 0 where
    failed : (e : ℕ) (k' : K) → Kept k k' → Opened k (err e, k')
    succeeded :
        (s : KvmSystem) (k' : K) (fd : ℕ)
        → s.fd ≡ some fd
        → laws.is_open k fd ≡ false
        → laws.is_open k' fd ≡ true
        → s.api_version ≡ kvm_api_version
        → Kept k (release kvm s k')
        → Opened k (ok s, k')

  Probed-Opened :
      (path : String) (k : K) (fd : ℕ)
      → (kvm.open_path path k).0 ≡ ok fd
      → (r : Result KvmSystem × K) → Probed fd (kvm.open_path path k).1 r
      → Opened k r
  unfolding release
  Probed-Opened path k fd h _ (Probed.refused e) = Opened.failed e _ (open_closed path k fd h)
  Probed-Opened path k fd h _ (Probed.held s e v) =
      let (fresh, grown) = laws.opened path k fd h in
      Opened.succeeded s _ fd e fresh (grown fd ∙ rw (==_refl fd) refl) v
        (λ x. rw e (open_closed path k fd h x))

  -- `open_system` leaks no descriptor: when it fails, whichever call failed, exactly the descriptors are
  -- open that were before; when it succeeds, the object holds a descriptor that was not open and is
  -- now, the kernel's version is the one that the program wants, and after the object's destructor
  -- exactly the descriptors are open that were before.
  pub open_system-Opened : (path : String) (k : K) → Opened k (open_system kvm path k)
  unfolding open_system
  open_system-Opened path k = elim (Result-cases (kvm.open_path path k).0) [
    | inr (e, q) ↦ rw (q, open_system) (Opened.failed e _ (λ x. laws.open_refused path k e x q))
    | inl (fd, q) ↦ rw (q, open_system) (Probed-Opened path k fd q _ (probe-Probed fd _))
  ]

module _ {K : Type 0} (kvm : Kvm K) where
  -- A move assignment to an object that holds no descriptor, as after a move from it, does nothing: the
  -- other object keeps its descriptor. To one that holds a descriptor, it closes that one and moves
  -- the other object as the move constructor does.
  pub assign_outcome :
      (self other : KvmSystem) (k : K)
      → (self.fd ≡ none → assign kvm self other k ≡ ((self, other), k))
        × ((fd : ℕ)
            → self.fd ≡ some fd
            → ((assign kvm self other k).0 ≡ move other)
              × ((assign kvm self other k).1 ≡ release kvm self k))
  unfolding assign move release
  assign_outcome self other k = (λ e. rw e, λ fd e. (rw e, rw e))
