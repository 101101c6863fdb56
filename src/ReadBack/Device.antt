-- ===== src/ReadBack/Device.antt =====
-- Read back in a die, a package and the disk (OriginalFlashSim/ssd_die.cpp, ssd_package.cpp,
-- ssd_ssd.cpp).
use test_flash_sim.Base.{
  ◌≡◌, inl, inr, true, ◌&&◌, some, ok, arith, Option-cases, Run-cases, ltb, ◌>>=◌, set, get_elem?,
  get_elem?-set_self, lt-length_of_get_elem?,
}
use test_flash_sim.Config.{Config}
use test_flash_sim.Address.{die_level, package_level, valid_beyond, valid_to}
use test_flash_sim.Event.{Event}
use test_flash_sim.Memory.{Memory}
use test_flash_sim.Page.{Done}
use test_flash_sim.Plane.{Plane}
use test_flash_sim.Plane
use test_flash_sim.Die.{Die}
use test_flash_sim.Die
use test_flash_sim.Package.{Package}
use test_flash_sim.Package
use test_flash_sim.Ssd.{Ssd}
use test_flash_sim.Ssd
use test_flash_sim.ReadBack.{Reads, ReadsBack}
use test_flash_sim.ReadBack.Array.{Plane-ReadsBack}

die_parts :
    (c : Config) (d : Die) (e : Event) (m : Memory) (r : Done Die)
    → Die.write c d e m ≡ ok r
    → (x : Plane) × (s : Done Plane) × (get_elem? d.planes e.address.plane ≡ some x)
      × (Plane.write c x e m ≡ ok s)
      × ((ltb e.address.plane d.size && valid_beyond e.address die_level) ≡ true)
      × (r.self.size ≡ d.size)
      × (r.self.planes ≡ set d.planes e.address.plane s.self)
      × (r.memory ≡ s.memory)
unfolding Die.write Die.put
die_parts c d e m r h = elim (Option-cases (get_elem? d.planes e.address.plane)) [
  | inl missing ↦ absurd (ground arith)
  | inr (x, found) ↦ elim (Run-cases (Plane.write c x e m)) [
    | inr (f, failed) ↦ absurd (ground arith)
    | inl (s, served) ↦
        (x, s, found, served, ground arith, ground arith, ground arith, ground arith)
  ]
]

die_read :
    (c : Config) (d : Die) (e : Event) (m n : Memory) (x : Plane)
    → get_elem? d.planes e.address.plane ≡ some x
    → (ltb e.address.plane d.size && valid_beyond e.address die_level) ≡ true
    → Reads n (Plane.read c x e m)
    → Reads n (Die.read c d e m)
unfolding Die.read Die.put
die_read c d e m n x found passes rd = record {
  result = Die.put d e.address.plane rd.result;
  returns = rw (passes, found, ◌>>=◌, rd.returns);
  succeeds = rd.succeeds;
  points = rd.points;
}

pub Die-ReadsBack :
    (c : Config) (d : Die) (e : Event) (m : Memory) (r : Done Die)
    → Die.write c d e m ≡ ok r
    → ReadsBack c e m r (Die.read c r.self)
Die-ReadsBack c d e m r h =
    let (x, s, found, served, passes, size, array, memory) = die_parts c d e m r h in
    let back = Plane-ReadsBack c x e m s served in
    record {
      stored = back.stored;
      copies = back.copies;
      stores = rw memory back.stores;
      reads = λ e' m' n same pointed.
          die_read c r.self e' m' n s.self
            (rw (array, same)
              (get_elem?-set_self d.planes e.address.plane s.self
                (lt-length_of_get_elem? d.planes e.address.plane x found)))
            (rw (size, same) passes) (back.reads e' m' n same pointed);
    }

package_parts :
    (c : Config) (d : Package) (e : Event) (m : Memory) (r : Done Package)
    → Package.write c d e m ≡ ok r
    → (x : Die) × (s : Done Die) × (get_elem? d.dies e.address.die ≡ some x)
      × (Die.write c x e m ≡ ok s)
      × ((ltb e.address.die d.size && valid_beyond e.address package_level) ≡ true)
      × (r.self.size ≡ d.size)
      × (r.self.dies ≡ set d.dies e.address.die s.self)
      × (r.memory ≡ s.memory)
unfolding Package.write Package.put
package_parts c d e m r h = elim (Option-cases (get_elem? d.dies e.address.die)) [
  | inl missing ↦ absurd (ground arith)
  | inr (x, found) ↦ elim (Run-cases (Die.write c x e m)) [
    | inr (f, failed) ↦ absurd (ground arith)
    | inl (s, served) ↦
        (x, s, found, served, ground arith, ground arith, ground arith, ground arith)
  ]
]

package_read :
    (c : Config) (d : Package) (e : Event) (m n : Memory) (x : Die)
    → get_elem? d.dies e.address.die ≡ some x
    → (ltb e.address.die d.size && valid_beyond e.address package_level) ≡ true
    → Reads n (Die.read c x e m)
    → Reads n (Package.read c d e m)
unfolding Package.read Package.put
package_read c d e m n x found passes rd = record {
  result = Package.put d e.address.die rd.result;
  returns = rw (passes, found, ◌>>=◌, rd.returns);
  succeeds = rd.succeeds;
  points = rd.points;
}

pub Package-ReadsBack :
    (c : Config) (d : Package) (e : Event) (m : Memory) (r : Done Package)
    → Package.write c d e m ≡ ok r
    → ReadsBack c e m r (Package.read c r.self)
Package-ReadsBack c d e m r h =
    let (x, s, found, served, passes, size, array, memory) = package_parts c d e m r h in
    let back = Die-ReadsBack c x e m s served in
    record {
      stored = back.stored;
      copies = back.copies;
      stores = rw memory back.stores;
      reads = λ e' m' n same pointed.
          package_read c r.self e' m' n s.self
            (rw (array, same)
              (get_elem?-set_self d.dies e.address.die s.self
                (lt-length_of_get_elem? d.dies e.address.die x found)))
            (rw (size, same) passes) (back.reads e' m' n same pointed);
    }

ssd_parts :
    (c : Config) (d : Ssd) (e : Event) (m : Memory) (r : Done Ssd)
    → Ssd.write c d e m ≡ ok r
    → (x : Package) × (s : Done Package) × (get_elem? d.packages e.address.pkg ≡ some x)
      × (Package.write c x e m ≡ ok s)
      × ((ltb e.address.pkg d.size && valid_to e.address package_level) ≡ true)
      × (r.self.size ≡ d.size)
      × (r.self.packages ≡ set d.packages e.address.pkg s.self)
      × (r.memory ≡ s.memory)
unfolding Ssd.write Ssd.put
ssd_parts c d e m r h = elim (Option-cases (get_elem? d.packages e.address.pkg)) [
  | inl missing ↦ absurd (ground arith)
  | inr (x, found) ↦ elim (Run-cases (Package.write c x e m)) [
    | inr (f, failed) ↦ absurd (ground arith)
    | inl (s, served) ↦
        (x, s, found, served, ground arith, ground arith, ground arith, ground arith)
  ]
]

ssd_read :
    (c : Config) (d : Ssd) (e : Event) (m n : Memory) (x : Package)
    → get_elem? d.packages e.address.pkg ≡ some x
    → (ltb e.address.pkg d.size && valid_to e.address package_level) ≡ true
    → Reads n (Package.read c x e m)
    → Reads n (Ssd.read c d e m)
unfolding Ssd.read Ssd.put
ssd_read c d e m n x found passes rd = record {
  result = Ssd.put d e.address.pkg rd.result;
  returns = rw (passes, found, ◌>>=◌, rd.returns);
  succeeds = rd.succeeds;
  points = rd.points;
}

pub Ssd-ReadsBack :
    (c : Config) (d : Ssd) (e : Event) (m : Memory) (r : Done Ssd)
    → Ssd.write c d e m ≡ ok r
    → ReadsBack c e m r (Ssd.read c r.self)
Ssd-ReadsBack c d e m r h =
    let (x, s, found, served, passes, size, array, memory) = ssd_parts c d e m r h in
    let back = Package-ReadsBack c x e m s served in
    record {
      stored = back.stored;
      copies = back.copies;
      stores = rw memory back.stores;
      reads = λ e' m' n same pointed.
          ssd_read c r.self e' m' n s.self
            (rw (array, same)
              (get_elem?-set_self d.packages e.address.pkg s.self
                (lt-length_of_get_elem? d.packages e.address.pkg x found)))
            (rw (size, same) passes) (back.reads e' m' n same pointed);
    }
