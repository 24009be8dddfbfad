-- ===== src/Runtime/Secrets.antt =====
-- Secrets of readers and the active LLM provider, written and read back, for
-- backend/internal/store/postgres/runtime_repository.go.
use mathlib.Core.Path.{subst}
use expensor.Prelude.{
  ltb, String, Bool, true, false, ◌&&◌, Option, none, some, List, [], ◌∷◌, ◌++◌, length, str_eq,
  if◌then◌else◌, ◌≡◌, refl, arith, sym, ◌∙◌, ap, eq_iff, eq_refl, Bool-cases, inl, inr,
}
use expensor.Prelude.Tables.{first_where, upsert_where}
use expensor.Errors.{Err}
use expensor.Result.{ok}
use expensor.Scanning.{exec}
use expensor.Runtime.{Bytes, ReaderRuntime}
use expensor.Runtime.SecretBox.{
  Aead, SecretAssociatedData, associated_bytes, take, drop, seal_secret, open_secret,
}
use expensor.Runtime.Readers.{
  Column, client_secret, oauth_token, is_reader, with_ciphertext, empty_reader, associated_data,
  write_reader_encrypted_json, read_reader_encrypted_json, column_of,
}
use expensor.Runtime.Keyed.{upserted, first_where-upsert_where, first_where-upsert_other}

take-append : (xs ys : Bytes) → take (length xs) (xs ++ ys) ≡ xs
unfolding take
take-append [] ys = refl
take-append (x ∷ xs) ys = ap (◌∷◌ x) (take-append xs ys)

drop-append : (xs ys : Bytes) → drop (length xs) (xs ++ ys) ≡ ys
unfolding drop
drop-append [] ys = refl
drop-append (x ∷ xs) ys = drop-append xs ys

enough : (xs ys : Bytes) → ltb (length (xs ++ ys)) (length xs) ≡ false
enough [] ys = ground arith
enough (x ∷ xs) ys = ground (arith, enough xs ys)

-- What was sealed is opened under the same associated data.
open_secret-seal_secret :
    (aead : Aead) (nonce plaintext : Bytes) (a : SecretAssociatedData)
    → length nonce ≡ aead.nonce_size
    → ((n p : Bytes) (d : String) → aead.open_sealed n (aead.seal n p d) d ≡ ok p)
    → open_secret (some aead) (nonce ++ aead.seal nonce plaintext (associated_bytes a)) a
      ≡ ok plaintext
unfolding open_secret
open_secret-seal_secret aead nonce plaintext a size opens =
    let sealed = aead.seal nonce plaintext (associated_bytes a) in
    rw
      (
        sym size,
        enough nonce sealed,
        take-append nonce sealed,
        drop-append nonce sealed,
        opens nonce plaintext (associated_bytes a),
      )
      refl

abbrev same_column : Column → Column → Bool
same_column client_secret client_secret = true
same_column oauth_token oauth_token = true
same_column client_secret oauth_token = false
same_column oauth_token client_secret = false

abbrev pub same_secret : String → String → Column → String → String → Column → Bool
same_secret tenant reader c tenant' reader' c' =
    str_eq tenant tenant' && str_eq reader reader' && same_column c c'

written_row : String → String → Column → Bytes → List ReaderRuntime → List ReaderRuntime
unfolding upsert_where
written_row tenant reader c ciphertext rows =
    upsert_where (is_reader tenant reader) (with_ciphertext c (some ciphertext))
      (with_ciphertext c (some ciphertext) (empty_reader tenant reader)) rows

ciphertext-stays :
    (tenant reader : String) (c : Column) (bs : Option Bytes) (r : ReaderRuntime)
    → is_reader tenant reader (with_ciphertext c bs r) ≡ is_reader tenant reader r
ciphertext-stays tenant reader client_secret bs r = refl
ciphertext-stays tenant reader oauth_token bs r = refl

ciphertext_upserted :
    (tenant reader : String) (c c' : Column) (bs : Bytes) (row : Option ReaderRuntime)
    → column_of c' (
        upserted
          (with_ciphertext c (some bs))
          (with_ciphertext c (some bs) (empty_reader tenant reader))
          row)
      ≡ (if same_column c c' then some bs else column_of c' row)
ciphertext_upserted tenant reader client_secret client_secret bs none = refl
ciphertext_upserted tenant reader client_secret client_secret bs (some r) = refl
ciphertext_upserted tenant reader client_secret oauth_token bs none = refl
ciphertext_upserted tenant reader client_secret oauth_token bs (some r) = refl
ciphertext_upserted tenant reader oauth_token client_secret bs none = refl
ciphertext_upserted tenant reader oauth_token client_secret bs (some r) = refl
ciphertext_upserted tenant reader oauth_token oauth_token bs none = refl
ciphertext_upserted tenant reader oauth_token oauth_token bs (some r) = refl

is_reader-empty :
    (tenant reader : String) (c : Column) (bs : Option Bytes)
    → is_reader tenant reader (with_ciphertext c bs (empty_reader tenant reader)) ≡ true
is_reader-empty tenant reader client_secret bs = ground (arith, eq_refl tenant, eq_refl reader)
is_reader-empty tenant reader oauth_token bs = ground (arith, eq_refl tenant, eq_refl reader)

reader_apart :
    (tenant reader tenant' reader' : String) (r : ReaderRuntime)
    → (str_eq tenant tenant' && str_eq reader reader') ≡ false
    → is_reader tenant reader r ≡ true
    → is_reader tenant' reader' r ≡ false
reader_apart tenant reader tenant' reader' r other h = ground (
  arith,
  eq_iff r.tenant_id tenant,
  eq_iff r.tenant_id tenant',
  eq_iff tenant tenant',
  eq_iff r.reader reader,
  eq_iff r.reader reader',
  eq_iff reader reader',
)

own_column :
    (tenant reader : String) (c : Column) (bs : Bytes) (rows : List ReaderRuntime) (c' : Column)
    → column_of c' (first_where (is_reader tenant reader) (written_row tenant reader c bs rows)) ≡ (
        if str_eq tenant tenant && str_eq reader reader && same_column c c'
        then some bs
        else column_of c' (first_where (is_reader tenant reader) rows))
unfolding written_row
own_column tenant reader c bs rows c' =
    rw (eq_refl tenant, eq_refl reader)
      (ap (column_of c') (
          first_where-upsert_where (is_reader tenant reader) (with_ciphertext c (some bs))
            (with_ciphertext c (some bs) (empty_reader tenant reader)) rows
            (ciphertext-stays tenant reader c (some bs))
            (is_reader-empty tenant reader c (some bs)))
        ∙ ciphertext_upserted tenant reader c c' bs (first_where (is_reader tenant reader) rows))

-- The column that is read after a write, of any reader of any tenant.
column_after :
    (tenant reader : String) (c : Column) (bs : Bytes) (rows : List ReaderRuntime)
    (tenant' reader' : String) (c' : Column)
    → column_of c' (first_where (is_reader tenant' reader') (written_row tenant reader c bs rows))
      ≡ (if same_secret tenant reader c tenant' reader' c'
          then some bs
          else column_of c' (first_where (is_reader tenant' reader') rows))
unfolding written_row
column_after tenant reader c bs rows tenant' reader' c' =
    elim (Bool-cases (str_eq tenant tenant' && str_eq reader reader')) [
      | inl e ↦
          let same_t : tenant ≡ tenant' = ground (arith, eq_iff tenant tenant') in
          let same_r : reader ≡ reader' = ground (arith, eq_iff reader reader') in
          subst
            (λ t.
              column_of c' (first_where (is_reader t reader') (written_row tenant reader c bs rows))
              ≡ (if str_eq tenant t && str_eq reader reader' && same_column c c'
                  then some bs
                  else column_of c' (first_where (is_reader t reader') rows)))
            same_t
            (subst
              (λ r.
                column_of c'
                  (first_where (is_reader tenant r) (written_row tenant reader c bs rows))
                ≡ (if str_eq tenant tenant && str_eq reader r && same_column c c'
                    then some bs
                    else column_of c' (first_where (is_reader tenant r) rows)))
              same_r (own_column tenant reader c bs rows c'))
      | inr e ↦
          ap (column_of c') (
            first_where-upsert_other (is_reader tenant reader) (with_ciphertext c (some bs))
              (with_ciphertext c (some bs) (empty_reader tenant reader)) (is_reader tenant' reader')
              (λ r h. reader_apart tenant reader tenant' reader' r e h)
              (ciphertext-stays tenant' reader' c (some bs)) rows
              (is_reader-empty tenant reader c (some bs)))
          ∙ ground arith
    ]

column_eq : (c c' : Column) → same_column c c' ≡ true → c ≡ c'
column_eq client_secret client_secret h = refl
column_eq oauth_token oauth_token h = refl
column_eq client_secret oauth_token h = ground arith
column_eq oauth_token client_secret h = ground arith

same_data :
    (tenant reader : String) (c : Column) (tenant' reader' : String) (c' : Column)
    → same_secret tenant reader c tenant' reader' c' ≡ true
    → associated_data tenant reader c ≡ associated_data tenant' reader' c'
same_data tenant reader c tenant' reader' c' h =
    let same_t : tenant ≡ tenant' = ground (arith, eq_iff tenant tenant') in
    let same_r : reader ≡ reader' = ground (arith, eq_iff reader reader') in
    let same_c : c ≡ c' = column_eq c c' (ground arith) in
    ap (λ t. associated_data t reader c) same_t
    ∙ ap (λ r. associated_data tenant' r c) same_r
    ∙ ap (associated_data tenant' reader') same_c

write_result :
    (quote : String → String) (valid : Bytes → Bool) (aead : Aead) (nonce : Bytes)
    (fault : Option Err) (tenant reader : String) (c : Column) (value : Bytes)
    (rows rows' : List ReaderRuntime)
    → write_reader_encrypted_json quote valid
        (some aead)
        (ok nonce)
        fault
        tenant
        reader
        c
        value
        rows
      ≡ ok rows'
    → rows'
      ≡ written_row tenant reader c
          (nonce ++ aead.seal nonce value (associated_bytes (associated_data tenant reader c)))
          rows
unfolding write_reader_encrypted_json seal_secret exec written_row
write_result quote valid aead nonce fault tenant reader c value rows rows' h = ground arith

-- A secret that was written is what is read for its reader and column, and what is read for any other
-- reader, tenant or column is what was read before. The nonce has the cipher's size, and the cipher
-- opens what it sealed with the same nonce and the same associated data.
pub read_reader_encrypted_json-write :
    (quote : String → String) (valid : Bytes → Bool) (aead : Aead) (nonce : Bytes)
    (fault : Option Err) (tenant reader : String) (c : Column) (value : Bytes)
    (rows rows' : List ReaderRuntime) (tenant' reader' : String) (c' : Column)
    → length nonce ≡ aead.nonce_size
    → ((n p : Bytes) (d : String) → aead.open_sealed n (aead.seal n p d) d ≡ ok p)
    → write_reader_encrypted_json quote valid
        (some aead)
        (ok nonce)
        fault
        tenant
        reader
        c
        value
        rows
      ≡ ok rows'
    → read_reader_encrypted_json quote valid (some aead) none tenant' reader' c' rows' ≡ (
        if same_secret tenant reader c tenant' reader' c'
        then ok (some value)
        else read_reader_encrypted_json quote valid (some aead) none tenant' reader' c' rows)
unfolding read_reader_encrypted_json exec
read_reader_encrypted_json-write quote valid aead nonce fault tenant reader c value rows rows'
      tenant' reader' c' size opens h =
    let bs = nonce ++ aead.seal nonce value (associated_bytes (associated_data tenant reader c)) in
    elim (Bool-cases (same_secret tenant reader c tenant' reader' c')) [
      | inr e ↦
          rw
            (
              write_result quote valid aead nonce fault tenant reader c value rows rows' h,
              column_after tenant reader c bs rows tenant' reader' c',
              e,
            )
            refl
      | inl e ↦
          rw
            (
              write_result quote valid aead nonce fault tenant reader c value rows rows' h,
              column_after tenant reader c bs rows tenant' reader' c',
              e,
            )
            (rw
              (subst (λ a. open_secret (some aead) bs a ≡ ok value)
                (same_data tenant reader c tenant' reader' c' e)
                (open_secret-seal_secret aead nonce value (associated_data tenant reader c) size
                  opens))
              refl)
    ]
