-- ===== src/Database/Alloc/Capacity.antt =====
-- A subnet with more addresses than peers has a free one.
use wgxdp.Base.{
  ℕ, zero, suc, ◌+◌, ◌≤◌, ◌<◌, ◌≡◌, ◌≢◌, refl, sym, ap, ◌∙◌, String, Bool, true, Option, none, some,
  List, [], ◌∷◌, ◌++◌, any, length, arith, ◌==◌, ==_iff, string_eq,
}
use wgxdp.Net.{Ip4, to4, big_endian, bytes4, put_big_endian, v4_in_v6_prefix}
use wgxdp.Net.Parse.{parse_ip}
use wgxdp.Net.RoundTrip.{IsBytes, parse_ip-ip_string}
use wgxdp.Sql.{delete}
use wgxdp.World.{World, Env, PeerRow}
use wgxdp.Act.{ok}
use wgxdp.Net.Cidr.{IpNet, parse_cidr}
use wgxdp.Database.Alloc.{
  u32, address_text, first_candidate, broadcast_of, mask_number, assigned_ips, next_available_ip,
  Search, found, exhausted, out_of_fuel, answer,
}
use wgxdp.Database.Alloc.Answers.{next_available_ip-Finds, next_available_ip-broadcast}
use wgxdp.Database.Alloc.FirstFree.{IsFull, IsFirstFree, Finds}

put_big_endian-IsBytes : (n : ℕ) → IsBytes (put_big_endian n)
put_big_endian-IsBytes n = omega arith

-- `net.ParseIP` reads the text of a candidate.
pub parse_ip-address_text :
    (n : ℕ) → parse_ip (address_text n) ≡ some (v4_in_v6_prefix ++ bytes4 (put_big_endian n))
unfolding address_text
parse_ip-address_text n = parse_ip-ip_string (put_big_endian n) (put_big_endian-IsBytes n)

abbrev number_of : Option (List ℕ) → ℕ
number_of none = 0
number_of (some l) = elim (to4 l) [ none ↦ 0 | some ip ↦ big_endian ip ]

-- Two 32-bit candidates that are written as the same text are the same.
pub address_text-injective : (m n : ℕ) → m < u32 → n < u32 → address_text m ≡ address_text n → m ≡ n
address_text-injective m n hm hn e =
    let numbers : number_of (some (v4_in_v6_prefix ++ bytes4 (put_big_endian m)))
        ≡ number_of (some (v4_in_v6_prefix ++ bytes4 (put_big_endian n))) =
      ap number_of (sym (parse_ip-address_text m) ∙ ap parse_ip e ∙ parse_ip-address_text n) in
    omega arith

length-delete-le : (p : String → Bool) (xs : List String) → length (delete p xs) ≤ length xs
length-delete-le p [] = omega arith
length-delete-le p (x ∷ xs) = ground (arith, length-delete-le p xs)

-- Without the texts that equal one of its own, a list is shorter.
length-delete-lt :
    (p : String → Bool) (xs : List String) → any p xs ≡ true → length (delete p xs) < length xs
length-delete-lt p [] h = cc
length-delete-lt p (x ∷ xs) h = ground (arith, length-delete-le p xs, length-delete-lt p xs)

any-delete_ne :
    (x y : String) (xs : List String)
    → x ≢ y
    → any (λ u. u == y) xs ≡ true
    → any (λ u. u == y) (delete (λ u. u == x) xs) ≡ true
any-delete_ne x y [] ne h = h
any-delete_ne x y (u ∷ us) ne h = ground (arith, ==_iff u x, ==_iff u y, any-delete_ne x y us ne)

-- If every address of a range is assigned, there are at least as many texts.
pub range-le-length :
    (n lo : ℕ) (used : List String) → lo + n < u32 → IsFull used lo (lo + n) → n ≤ length used
range-le-length zero lo used fits full = omega arith
range-le-length (suc n) lo used fits full =
    omega (arith, shorter, range-le-length n (lo + 1) others (omega arith) rest)
  where
    others : List String
    others = delete (λ u. u == address_text lo) used

    shorter : length others < length used
    shorter =
        length-delete-lt (λ u. u == address_text lo) used (full lo (omega arith) (omega arith))

    rest : IsFull others (lo + 1) (lo + 1 + n)
    rest m le lt =
        any-delete_ne (address_text lo) (address_text m) used
          (λ e.
            let same : lo ≡ m = address_text-injective lo m (omega arith) (omega arith) e in
            absurd (omega arith))
          (full m (omega arith) (omega arith))

length-assigned_ips : (rows : List PeerRow) → length (assigned_ips rows) ≡ length rows
length-assigned_ips [] = refl
length-assigned_ips (p ∷ rows) = ap suc (length-assigned_ips rows)

-- With fewer peers than addresses between the first candidate and the broadcast address, and no
-- refusal of SQLite, the method returns the first free address.
pub next_available_ip_succeeds :
    (cidr : String) (subnet : IpNet) (ip : Ip4) (env : Env) (w : World)
    → parse_cidr cidr ≡ some subnet
    → to4 subnet.ip ≡ some ip
    → env.sql_error w.tick ≡ none
    → env.sql_error (suc w.tick) ≡ none
    → first_candidate (big_endian ip) + length w.db.peers.rows
      < broadcast_of (big_endian ip) (mask_number subnet.mask)
    → (text : String) × ((next_available_ip cidr env w).0 ≡ ok text)
      × IsFirstFree
          (assigned_ips w.db.peers.rows)
          (first_candidate (big_endian ip))
          (broadcast_of (big_endian ip) (mask_number subnet.mask))
          text
next_available_ip_succeeds cidr subnet ip env w parsed v4 answered iterated room =
    let (r, finds, e, _) =
      next_available_ip-Finds cidr subnet ip env w parsed v4 answered iterated in
    of_answer r finds e
  where
    net : ℕ
    net = big_endian ip

    top : ℕ
    top = broadcast_of net (mask_number subnet.mask)

    lo : ℕ
    lo = first_candidate net

    used : List String
    used = assigned_ips w.db.peers.rows

    not_full : IsFull used lo top → ⊥
    not_full full =
        let n : ℕ = suc (length used) in
        let top_lt : top < u32 = next_available_ip-broadcast cidr subnet ip parsed v4 in
        let many : n ≤ length used =
          range-le-length n lo used (omega (arith, length-assigned_ips w.db.peers.rows))
            (λ m le lt. full m le (omega (arith, length-assigned_ips w.db.peers.rows))) in
        omega arith

    of_answer :
        (r : Search)
        → Finds used lo top r
        → (next_available_ip cidr env w).0 ≡ answer cidr r
        → (text : String) × ((next_available_ip cidr env w).0 ≡ ok text)
          × IsFirstFree used lo top text
    of_answer (found text) finds e = (text, e, finds)
    of_answer exhausted finds e = absurd (not_full finds)
    of_answer out_of_fuel finds e = absurd finds
