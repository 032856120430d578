-- ===== src/Pagination/Uri/Literal.antt =====
-- Literal addresses as RFC 3986 writes them, for src/runtime/pagination/uri_reference.cpp.
use cuac.Common.{
  ℕ, suc, ◌+◌, ◌≤◌, ◌<◌, ◌≡◌, ◌⊎◌, Bool, true, false, ◌||◌, List, [], ◌∷◌, ◌++◌, ◌==◌,
}
use cuac.Pagination.Uri.Text.{is_ascii_digit, is_hex_digit, is_unreserved, is_sub_delimiter, every}
use cuac.Pagination.Uri.Address.{is_group}

-- `dec-octet`.
pub data DecOctet : List ℕ → Type 0 where
  ones : {a : ℕ} → is_ascii_digit a ≡ true → DecOctet (a ∷ [])
  tens : {a b : ℕ} → b'1' ≤ a → a ≤ b'9' → is_ascii_digit b ≡ true → DecOctet (a ∷ b ∷ [])
  hundreds :
      {b c : ℕ} → is_ascii_digit b ≡ true → is_ascii_digit c ≡ true → DecOctet (b'1' ∷ b ∷ c ∷ [])
  two_hundreds :
      {b c : ℕ} → b'0' ≤ b → b ≤ b'4' → is_ascii_digit c ≡ true → DecOctet (b'2' ∷ b ∷ c ∷ [])
  last_hundred : {c : ℕ} → b'0' ≤ c → c ≤ b'5' → DecOctet (b'2' ∷ b'5' ∷ c ∷ [])

-- `IPv4address`.
pub data Ipv4 : List ℕ → Type 0 where
  ipv4 :
      (a b c d : List ℕ)
      → DecOctet a
      → DecOctet b
      → DecOctet c
      → DecOctet d
      → Ipv4 (a ++ (b'.' ∷ (b ++ (b'.' ∷ (c ++ (b'.' ∷ d))))))

-- Groups of 16 bits, `h16`, with colons between them; where the flag is set an IPv4 address can stand
-- for the last two.
pub data Groups (address : Bool) : ℕ → List ℕ → Type 0 where
  group : {g : List ℕ} → is_group g ≡ true → Groups address 1 g
  two_groups : {g : List ℕ} → address ≡ true → Ipv4 g → Groups address 2 g
  more :
      {n : ℕ} (g p : List ℕ)
      → is_group g ≡ true
      → Groups address n p
      → Groups address (suc n) (g ++ (b':' ∷ p))

-- The groups on one side of a compression, which may be none.
pub data Side (address : Bool) : ℕ → List ℕ → Type 0 where
  nothing : Side address 0 []
  groups : {n : ℕ} {p : List ℕ} → Groups address n p → Side address n p

-- `IPv6address`: eight groups, or fewer with a compression.
pub data Ipv6 : List ℕ → Type 0 where
  full : {v : List ℕ} → Groups true 8 v → Ipv6 v
  compressed :
      {m n : ℕ} (l r : List ℕ)
      → Side false m l
      → Side true n r
      → m + n < 8
      → Ipv6 (l ++ (b':' ∷ b':' ∷ r))

-- `IPvFuture`.
pub data IpvFuture : List ℕ → Type 0 where
  ipv_future :
      (v h : ℕ) (hs : List ℕ) (c : ℕ) (cs : List ℕ)
      → (v == b'v' || v == b'V') ≡ true
      → every is_hex_digit (h ∷ hs) ≡ true
      → every (λ b. is_unreserved b || is_sub_delimiter b || b == b':') (c ∷ cs) ≡ true
      → IpvFuture (v ∷ ((h ∷ hs) ++ (b'.' ∷ c ∷ cs)))

-- `IP-literal`, between its brackets.
abbrev pub IpLiteral : List ℕ → Type 0
IpLiteral l = Ipv6 l ⊎ IpvFuture l
