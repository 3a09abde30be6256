-- ===== src/Tests/Rules.antt =====
-- Access rules and uuids: web/accessfile.cpp and basic/uuid.cpp.
use air_sane.Prelude.{
  ◌≡◌, refl, true, List, [], ◌∷◌, none, some, arith, if◌then◌else◌, null, take, ◌*◌, ◌<◌, All,
}
use air_sane.Prelude.Int.{pos}
use air_sane.Text.{Bytes, codes, equal}
use air_sane.AccessFile.{
  Sockaddr, inet, set_bits, zeros, set_mask_bits, match_addresses, Entry, allow,
}
use air_sane.AccessFile.Parsing.{Net, AccessRules}
use air_sane.AccessFile.Masks.{IsAddress, match_addresses-set_mask_bits}
use air_sane.Uuid.{print}

abbrev client : Sockaddr
client = record { family = inet; data_bytes = 192 ∷ 168 ∷ 1 ∷ 7 ∷ [] }

abbrev home : Sockaddr
home = record { family = inet; data_bytes = 192 ∷ 168 ∷ 1 ∷ 0 ∷ [] }

-- Twelve bits: the second byte has its low bits set where a prefix has the high ones.
set_bits-twelve : set_bits 12 (zeros 4) ≡ 255 ∷ 15 ∷ 0 ∷ 0 ∷ []
unfolding set_bits
set_bits-twelve = refl

client-IsAddress : IsAddress inet client
client-IsAddress = record { is_family = refl; has_width = refl; are_bytes = ground arith }

home-IsAddress : IsAddress inet home
home-IsAddress = record { is_family = refl; has_width = refl; are_bytes = ground arith }

match_addresses-set_mask_bits_example :
    ((set_mask_bits home (pos (8 * 3))).0 ≡ true)
    × (match_addresses client home (set_mask_bits home (pos (8 * 3))).1
        ≡ equal (take 3 client.data_bytes) (take 3 home.data_bytes))
match_addresses-set_mask_bits_example =
    match_addresses-set_mask_bits inet 3 client home client-IsAddress home-IsAddress (omega arith)
      (omega arith)

abbrev mask : Sockaddr
mask = record { family = inet; data_bytes = 255 ∷ 255 ∷ 255 ∷ 0 ∷ [] }

abbrev entry : Entry
entry = record {
  kind = allow;
  rule = codes "192.168.1.0/24";
  networks = record { address = home; mask = mask } ∷ [];
}

abbrev net : Net
net = record {
  inet_pton = λ text. if null text then none else some (home.data_bytes);
  inet_pton6 = λ text. none;
  atoi = λ text. pos 24;
  interfaces = none;
}

abbrev lines : List Bytes
lines = codes "# rules" ∷ codes "allow 192.168.1.0/24" ∷ codes "permit all" ∷ []

abbrev no_rules : AccessRules
no_rules = record { entries = []; errors = [] }

abbrev noise : Bytes
noise = 1 ∷ 2 ∷ 3 ∷ 4 ∷ 5 ∷ 6 ∷ 7 ∷ 8 ∷ 9 ∷ 10 ∷ 11 ∷ 12 ∷ 13 ∷ 14 ∷ 255 ∷ 160 ∷ []

print-noise : print noise ≡ codes "01020304-0506-0708-090a-0b0c0d0effa0"
unfolding print
print-noise = refl

noise-bytes : All (λ b. b < 256) noise
noise-bytes = ground arith

abbrev hash : Bytes → Bytes
hash s = 8 ∷ 7 ∷ 6 ∷ 5 ∷ 4 ∷ 3 ∷ 2 ∷ 1 ∷ []
