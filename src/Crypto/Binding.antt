-- ===== src/Crypto/Binding.antt =====
-- Different places have different associated data.
use janus_secrets.Common.{
  ℕ, zero, suc, ◌^◌, ◌%◌, ◌<◌, ◌≡◌, refl, sym, ap, ◌∙◌, List, [], ◌∷◌, ◌++◌, append_assoc, length,
  arith, ◌==◌, if◌then◌else◌, Bytes, codes,
}
use janus_secrets.Audit.Bytes.{big_endian}
use janus_secrets.Audit.Bytes.Prefix.{append_inj, length-big_endian, big_endian_inj, IsPrefixCode}
use janus_secrets.Crypto.Places.{
  Place, project_kek, rotation_config, rotation_pending, sync_creds, dynamic_config,
  notification_channel, totp_secret, auth_key, oidc_client_secret, key_check, edit_request, dek,
  transit_key, field, word, aad,
}

abbrev domain : Place → ℕ
domain (project_kek id) = 0
domain (rotation_config id) = 1
domain (rotation_pending id) = 2
domain (sync_creds id) = 3
domain (dynamic_config id) = 4
domain (notification_channel id) = 5
domain (totp_secret id) = 6
domain auth_key = 7
domain oidc_client_secret = 8
domain key_check = 9
domain (edit_request p c) = 10
domain (dek p s v) = 11
domain (transit_key n v) = 12

-- What follows the name of the domain.
abbrev body : Place → Bytes
body (project_kek id) = field id
body (rotation_config id) = field id
body (rotation_pending id) = field id
body (sync_creds id) = field id
body (dynamic_config id) = field id
body (notification_channel id) = field id
body (totp_secret id) = field id
body auth_key = []
body oidc_client_secret = []
body key_check = []
body (edit_request p c) = field p ++ field c
body (dek p s v) = (field p ++ field s) ++ word v
body (transit_key n v) = field n ++ word v

abbrev byte_at : ℕ → Bytes → ℕ
byte_at n [] = 0
byte_at zero (b ∷ bs) = b
byte_at (suc n) (b ∷ bs) = byte_at n bs

-- The bytes that tell the domains apart.
abbrev classify : Bytes → ℕ
classify b =
    let at = λ (n : ℕ). byte_at n b in
    if at 6 == b'k'
    then (if at 7 == b'e' then 0 else 9)
    else if at 6 == b'r'
    then (if at 15 == b'c' then 1 else 2)
    else if at 6 == b's'
    then 3
    else if at 6 == b'n'
    then 5
    else if at 6 == b'c'
    then 10
    else if at 6 == b't'
    then 12
    else if at 6 == b'd'
    then (if at 7 == b'y' then 4 else 11)
    else if at 11 == b'o'
    then 8
    else if at 13 == b'k'
    then 7
    else 6

classify-aad : (p : Place) → classify (aad p) ≡ domain p
unfolding aad
classify-aad (project_kek id) = refl
classify-aad (rotation_config id) = refl
classify-aad (rotation_pending id) = refl
classify-aad (sync_creds id) = refl
classify-aad (dynamic_config id) = refl
classify-aad (notification_channel id) = refl
classify-aad (totp_secret id) = refl
classify-aad auth_key = refl
classify-aad oidc_client_secret = refl
classify-aad key_check = refl
classify-aad (edit_request p c) = refl
classify-aad (dek p s v) = refl
classify-aad (transit_key n v) = refl

abbrev names : List Bytes
names =
    codes "janus:kek:project"
    ∷ codes "janus:rotation:config"
    ∷ codes "janus:rotation:pending"
    ∷ codes "janus:sync:creds"
    ∷ codes "janus:dynamic:config"
    ∷ codes "janus:notification:channel"
    ∷ codes "janus:auth:totp-secret"
    ∷ codes "janus:auth:token-hmac"
    ∷ codes "janus:auth:oidc-client-secret"
    ∷ codes "janus:kcv"
    ∷ codes "janus:config-edit-request"
    ∷ codes "janus:dek"
    ∷ codes "janus:transit:v1"
    ∷ []

abbrev name_at : ℕ → List Bytes → Bytes
name_at n [] = []
name_at zero (b ∷ bs) = b
name_at (suc n) (b ∷ bs) = name_at n bs

aad-split : (p : Place) → aad p ≡ name_at (domain p) names ++ body p
unfolding aad
aad-split (project_kek id) = refl
aad-split (rotation_config id) = refl
aad-split (rotation_pending id) = refl
aad-split (sync_creds id) = refl
aad-split (dynamic_config id) = refl
aad-split (notification_channel id) = refl
aad-split (totp_secret id) = refl
aad-split auth_key = refl
aad-split oidc_client_secret = refl
aad-split key_check = refl
aad-split (edit_request p c) = refl
aad-split (dek p s v) = refl
aad-split (transit_key n v) = refl

-- The lengths and versions that a place holds fit 64 bits.
abbrev pub Fits : Place → Type 0
Fits (project_kek id) = length id < 2 ^ 64
Fits (rotation_config id) = length id < 2 ^ 64
Fits (rotation_pending id) = length id < 2 ^ 64
Fits (sync_creds id) = length id < 2 ^ 64
Fits (dynamic_config id) = length id < 2 ^ 64
Fits (notification_channel id) = length id < 2 ^ 64
Fits (totp_secret id) = length id < 2 ^ 64
Fits auth_key = Unit
Fits oidc_client_secret = Unit
Fits key_check = Unit
Fits (edit_request p c) = (length p < 2 ^ 64) × (length c < 2 ^ 64)
Fits (dek p s v) = (length p < 2 ^ 64) × (length s < 2 ^ 64) × (v < 2 ^ 64)
Fits (transit_key n v) = (length n < 2 ^ 64) × (v < 2 ^ 64)

field-IsPrefixCode : IsPrefixCode (λ f. length f < 2 ^ 64) field
unfolding field
field-IsPrefixCode s t x y hs ht h =
    let m = length s % 2 ^ 64 in
    let n = length t % 2 ^ 64 in
    let (lengths, rest) =
      append_inj (big_endian 8 m) (big_endian 8 n) (s ++ x) (t ++ y)
        (length-big_endian 8 m ∙ sym (length-big_endian 8 n))
        (sym (append_assoc (big_endian 8 m) s x) ∙ h ∙ append_assoc (big_endian 8 n) t y) in
    let words = big_endian_inj 8 m n (omega arith) (omega arith) lengths in
    append_inj s t x y (omega arith) rest

field_inj : (s t : Bytes) → length s < 2 ^ 64 → length t < 2 ^ 64 → field s ≡ field t → s ≡ t
field_inj s t hs ht h = (field-IsPrefixCode s t [] [] hs ht (ap (λ (b : Bytes). b ++ []) h)).0

word_inj : (v w : ℕ) → v < 2 ^ 64 → w < 2 ^ 64 → word v ≡ word w → v ≡ w
word_inj v w hv hw h =
    let words = big_endian_inj 8 (v % 2 ^ 64) (w % 2 ^ 64) (omega arith) (omega arith) h in
    omega arith

body_inj : (p q : Place) → Fits p → Fits q → domain p ≡ domain q → body p ≡ body q → p ≡ q
body_inj (project_kek a) (project_kek b) f g d h = ap project_kek (field_inj a b f g h)
body_inj (rotation_config a) (rotation_config b) f g d h = ap rotation_config (field_inj a b f g h)
body_inj (rotation_pending a) (rotation_pending b) f g d h =
    ap rotation_pending (field_inj a b f g h)
body_inj (sync_creds a) (sync_creds b) f g d h = ap sync_creds (field_inj a b f g h)
body_inj (dynamic_config a) (dynamic_config b) f g d h = ap dynamic_config (field_inj a b f g h)
body_inj (notification_channel a) (notification_channel b) f g d h =
    ap notification_channel (field_inj a b f g h)
body_inj (totp_secret a) (totp_secret b) f g d h = ap totp_secret (field_inj a b f g h)
body_inj auth_key auth_key f g d h = refl
body_inj oidc_client_secret oidc_client_secret f g d h = refl
body_inj key_check key_check f g d h = refl
body_inj (edit_request p c) (edit_request p' c') f g d h =
    let (ps, cs) = field-IsPrefixCode p p' (field c) (field c') f.0 g.0 h in
    cc (ps, field_inj c c' f.1 g.1 cs)
body_inj (dek p s v) (dek p' s' v') f g d h =
    let (ps, rest) = field-IsPrefixCode p p' (field s ++ word v) (field s' ++ word v') f.0 g.0 (
      sym (append_assoc (field p) (field s) (word v))
      ∙ h
      ∙ append_assoc (field p') (field s') (word v')) in
    let (ss, vs) = field-IsPrefixCode s s' (word v) (word v') f.1 g.1 rest in
    cc (ps, ss, word_inj v v' f.2 g.2 vs)
body_inj (transit_key n v) (transit_key n' v') f g d h =
    let (ns, vs) = field-IsPrefixCode n n' (word v) (word v') f.0 g.0 h in
    cc (ns, word_inj v v' f.1 g.1 vs)
body_inj _ _ f g d h = absurd (omega arith)

-- No two places share their associated data: places whose associated data are equal are the same
-- place, where lengths and versions fit 64 bits.
pub aad_inj : (p q : Place) → Fits p → Fits q → aad p ≡ aad q → p ≡ q
aad_inj p q f g h =
    let same : domain p ≡ domain q = sym (classify-aad p) ∙ ap classify h ∙ classify-aad q in
    let name = name_at (domain p) names in
    let name' = name_at (domain q) names in
    let (names_same, bodies) =
      append_inj name name' (body p) (body q) (ap (λ (n : ℕ). length (name_at n names)) same)
        (sym (aad-split p) ∙ h ∙ aad-split q) in
    body_inj p q f g same bodies
