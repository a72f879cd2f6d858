-- ===== src/Discover/Sources.antt =====
-- internal/discover/discover.go: the addresses that `connectedSourceIPs` finds.
use eth_node_operator.Common.{
  String, ◌≡◌, refl, ap, ◌∙◌, Bool, true, false, ◌||◌, Option, none, some, List, [], ◌∷◌, ◌++◌, map,
  if◌then◌else◌, ◌==◌, eq_iff, Bool-cases, inl, inr, arith, get_elem?,
}
use eth_node_operator.Common.Text.{fields, split}
use eth_node_operator.Discover.{
  Host, Address, mem, add_new, add_address, address_of, ss_args, add_lines, connected_source_ips,
  sources_or_error, rest_of,
}

-- No address stands twice.
abbrev pub Nodup : List String → Type 0
Nodup [] = Unit
Nodup (s ∷ ss) = (mem s ss ≡ false) × Nodup ss

mem-append : (s : String) (xs ys : List String) → mem s (xs ++ ys) ≡ (mem s xs || mem s ys)
mem-append s [] ys = refl
mem-append s (x ∷ xs) ys = ground (arith, mem-append s xs ys)

tail_false : (s x : String) (xs : List String) → mem s (x ∷ xs) ≡ false → mem s xs ≡ false
tail_false s x xs h = ground (arith, h)

-- A new element is none of the list's.
other :
    (s x : String) (a b : Bool)
    → a ≡ false
    → (if x == s then true else b) ≡ false
    → (a || (if s == x then true else false)) ≡ false
other s x a b h k = ground (arith, h, k, eq_iff s x, eq_iff x s)

Nodup-add : (s : String) (xs : List String) → mem s xs ≡ false → Nodup xs → Nodup (xs ++ s ∷ [])
Nodup-add s [] h n = (refl, tt)
Nodup-add s (x ∷ xs) h (fresh, n) =
    let rest = Nodup-add s xs (tail_false s x xs h) n in
    (mem-append x xs (s ∷ []) ∙ other s x (mem x xs) (mem s xs) fresh h, rest)

add_new-Nodup : (s : String) (xs : List String) → Nodup xs → Nodup (add_new s xs)
add_new-Nodup s xs n = elim (Bool-cases (mem s xs)) [
  | inl old ↦ rw old n
  | inr new ↦ rw new (Nodup-add s xs new n)
]

mem-add_new : (s t : String) (xs : List String) → mem t (add_new s xs) ≡ (mem t xs || (s == t))
mem-add_new s t xs = elim (Bool-cases (mem s xs)) [
  | inl old ↦
      rw old (ground (arith, eq_iff s t, old, ap (λ (u : String). mem u xs) {x = s} {y = t}))
  | inr new ↦ rw new (ground (arith, mem-append t xs (s ∷ [])))
]

-- Whether an address is one of another host, and written like this.
abbrev pub shows : String → Option Address → Bool
shows s none = false
shows s (some a) = if a.is_loopback || a.is_link_local then false else a.written == s

-- Whether an address of a list is shown so.
abbrev pub any_shows : String → List (Option Address) → Bool
any_shows s [] = false
any_shows s (o ∷ os) = shows s o || any_shows s os

mem-add_address :
    (t : String) (o : Option Address) (xs : List String)
    → mem t (add_address o xs) ≡ (mem t xs || shows t o)
mem-add_address t none xs = ground arith
mem-add_address t (some a) xs = ground (arith, mem-add_new a.written t xs)

add_address-Nodup : (o : Option Address) (xs : List String) → Nodup xs → Nodup (add_address o xs)
add_address-Nodup none xs n = n
add_address-Nodup (some a) xs n = elim (Bool-cases (a.is_loopback || a.is_link_local)) [
  | inl own ↦ rw own n
  | inr far ↦ rw far (add_new-Nodup a.written xs n)
]

module _ {W : Type 0} (h : Host W) where
  -- The address of the peer of a line, if it has one.
  abbrev pub peer : String → Option Address
  peer line = address_of h (get_elem? (fields line) 4)

  add_lines-Nodup : (lines ips : List String) → Nodup ips → Nodup (add_lines h lines ips)
  unfolding add_lines
  add_lines-Nodup [] ips n = n
  add_lines-Nodup (line ∷ lines) ips n =
      add_lines-Nodup lines _ (add_address-Nodup (peer line) ips n)

  mem-add_lines :
      (s : String) (lines ips : List String)
      → mem s (add_lines h lines ips) ≡ (mem s ips || any_shows s (map peer lines))
  unfolding add_lines
  mem-add_lines s [] ips = ground arith
  mem-add_lines s (line ∷ lines) ips = ground (
    arith,
    mem-add_lines s lines (add_address (peer line) ips),
    mem-add_address s (peer line) ips,
  )

  -- What a run of `ss` gives: no address twice, and exactly those of the peers of its lines behind the first that are of other hosts.
  pub record IsFound (out : String) (ips : List String) : Type 0 where
    pub nodup : Nodup ips
    pub exactly : (s : String) → mem s ips ≡ any_shows s (map peer (rest_of (split out b'\n')))

  -- If `ss` prints a text without an error, then the answer is a list of addresses, or an error if there are none:
  -- no address is twice in it, and an address is in it just if some line after the first has it as its fifth
  -- field, with or without a port, and it is neither of the host itself nor of its link.
  pub connected_source_ips-IsFound :
      (port out : String) (w w' : W)
      → h.run (ss_args port) w ≡ ((out, none), w')
      → (ips : List String) × IsFound out ips
        × (connected_source_ips h port w ≡ (sources_or_error port ips, w'))
  unfolding connected_source_ips
  connected_source_ips-IsFound port out w w' e =
      let lines = rest_of (split out b'\n') in
      (
        add_lines h lines [],
        record { nodup = add_lines-Nodup lines [] tt; exactly = λ s. mem-add_lines s lines [] },
        rw e,
      )
