-- ===== src/Egress/Screening.antt =====
-- Which targets of a stream are allowed.
use zvonok.Prelude.{ℕ, ◌+◌, ◌*◌, ◌≤◌, ◌<◌, ◌≡◌, ◌⊎◌, String, false, List, [], ◌∷◌}
use zvonok.Egress.Targets.{Address, ipv4, ipv6, no_address, is_private_address, LookedUp, addresses}

-- An IPv4 address as a number of 32 bits.
abbrev pub address_number : ℕ → ℕ → ℕ → ℕ → ℕ
address_number a b c d = a * 16777216 + b * 65536 + c * 256 + d

-- 0/8, 10/8, 127/8, 169.254/16, 172.16/12 and 192.168/16.
abbrev pub IsReserved : ℕ → Type 0
IsReserved n =
    (n < 16777216)
    ⊎ (((167772160 ≤ n) × (n < 184549376))
        ⊎ (((2130706432 ≤ n) × (n < 2147483648))
            ⊎ (((2851995648 ≤ n) × (n < 2852061184))
                ⊎ (((2886729728 ≤ n) × (n < 2887778304)) ⊎ ((3232235520 ≤ n) × (n < 3232301056))))))

-- Of an IPv4 address the number is out of the reserved blocks; of another the test is negative.
abbrev pub IsPublic : Address → Type 0
IsPublic (ipv4 a b c d) = ¬ IsReserved (address_number a b c d)
IsPublic (ipv6 s) = is_private_address (ipv6 s) ≡ false
IsPublic no_address = ⊥

-- The numbers of an IPv4 address are below 256.
abbrev pub IsAddress : Address → Type 0
IsAddress (ipv4 a b c d) = (a < 256) × (b < 256) × (c < 256) × (d < 256)
IsAddress _ = Unit

abbrev pub AreAddresses : List Address → Type 0
AreAddresses [] = Unit
AreAddresses (a ∷ rest) = IsAddress a × AreAddresses rest

abbrev pub ArePublic : List Address → Type 0
ArePublic [] = Unit
ArePublic (a ∷ rest) = IsPublic a × ArePublic rest

-- Each endpoint has addresses, all of them public.
abbrev pub ReachOnlyPublic : (String → LookedUp) → List String → Type 0
ReachOnlyPublic resolve [] = Unit
ReachOnlyPublic resolve (e ∷ es) =
    ((found : List Address) × (resolve e ≡ addresses found) × ArePublic found)
    × ReachOnlyPublic resolve es

abbrev pub AnswersAddresses : (String → LookedUp) → Type 0
AnswersAddresses resolve =
    (e : String) (found : List Address) → resolve e ≡ addresses found → AreAddresses found

pub some-addresses : (x y : List Address) → addresses x ≡ addresses y → x ≡ y
some-addresses x y e = cc
