-- ===== src/Value/Laws.antt =====
-- Well-formed values, with the getters and the destructor on them.
use mathlib.Core.List.{append-nil}
use graphlabapi_graphlab.Prelude.{
  ℕ, ◌^◌, ◌<◌, ◌≤◌, ◌≡◌, refl, Bool, Option, none, some, List, [], length, drop, take_all, arith,
  ◌∷◌, if◌then◌else◌, ◌&&◌, not,
}
use graphlabapi_graphlab.Prelude.Run.{Run, ok}
use graphlabapi_graphlab.Eid.{
  Datatype, vid_type, int_type, double_type, string_type, blob_type, double_vec_type, unknown_type,
}
use graphlabapi_graphlab.Value.{
  Payload, word, buffer, Value, same_type, get_vid, get_integer, get_string, get_blob, load_bytes,
  overwrite, alloc, get_double, get_blob, load_word, free_data,
}

abbrev pub FitsWord : Payload → ℕ → Type 0
FitsWord (word w) n = (w < 2 ^ 64) × (n ≡ 8)
FitsWord (buffer b) n = ⊥

abbrev pub FitsBytes : Payload → ℕ → Type 0
FitsBytes (word w) n = (w ≡ 0) × (n ≡ 0)
FitsBytes (buffer b) n = (length b ≡ n) × (0 < n)

abbrev pub Fits : Datatype → Payload → ℕ → Type 0
Fits vid_type p n = FitsWord p n
Fits int_type p n = FitsWord p n
Fits double_type p n = FitsWord p n
Fits string_type p n = FitsBytes p n
Fits blob_type p n = FitsBytes p n
Fits double_vec_type p n = ⊥
Fits unknown_type p n = ⊥

-- A scalar is a 64-bit word of 8 bytes; text has a block of exactly its length, or no block and
-- length 0. The other types are never initialised.
abbrev pub IsValid : Value → Type 0
IsValid v = Fits v.type v.payload v.len

drop_all : (b : List ℕ) (n : ℕ) → length b ≤ n → drop n b ≡ []
drop_all [] ℕ.zero h = refl
drop_all (x ∷ b) ℕ.zero h = absurd (omega arith)
drop_all [] (ℕ.suc n) h = refl
drop_all (x ∷ b) (ℕ.suc n) h = drop_all b n (omega arith)

-- What a payload holds: its word, or its bytes. A missing block holds no bytes.
abbrev pub content : Payload → ℕ × List ℕ
content (word w) = (w, [])
content (buffer b) = (0, b)

pub load_all : (b : List ℕ) → load_bytes (buffer b) (length b) ≡ ok b
unfolding load_bytes
load_all b = ground (arith, take_all (length b) b)

-- Every method reads the bytes of a block with the length that it has.
pub load_content : (p : Payload) (n : ℕ) → FitsBytes p n → load_bytes p n ≡ ok (content p).1
unfolding load_bytes
load_content (word w) n h = ground arith
load_content (buffer b) n h = ground (arith, take_all n b)

pub load_word-content : (p : Payload) (n : ℕ) → FitsWord p n → load_word p ≡ ok (content p).0
unfolding load_word
load_word-content (word w) n h = refl
load_word-content (buffer b) n h = absurd h

-- A valid block is the one that its bytes are copied to.
pub alloc-content : (p : Payload) (n : ℕ) → FitsBytes p n → alloc (content p).1 ≡ p
alloc-content (word w) n h = ground arith
alloc-content (buffer []) n h = absurd (omega arith)
alloc-content (buffer (x ∷ b)) n h = refl

pub length-content : (p : Payload) (n : ℕ) → FitsBytes p n → length (content p).1 ≡ n
length-content (word w) n h = omega arith
length-content (buffer b) n h = h.0

-- After `overwrite` the block holds the text, and nothing else.
pub overwrite_lem :
    (p : Payload) (n : ℕ) (val : List ℕ) → FitsBytes p n → overwrite p n val ≡ ok (alloc val)
unfolding overwrite
overwrite_lem (buffer b) n [] h = ground arith
overwrite_lem (buffer b) n (x ∷ val) h =
    ground (arith, drop_all b (length (x ∷ val)), append-nil (x ∷ val))
overwrite_lem (word w) n [] h = ground arith
overwrite_lem (word w) n (x ∷ val) h = ground arith

-- A getter finds the value if it has the getter's type and is not null, and returns false otherwise.
abbrev pub FoundIf {ℓ} : {A : Type ℓ} → Datatype → Value → A → Run (Option A) → Type ℓ
FoundIf t v a r = r ≡ (if same_type v.type t && not v.null_value then ok (some a) else ok none)

get_scalar_lem :
    (p : Payload) (n : ℕ) (t : Datatype) (null : Bool)
    → Fits t p n
    → let v : Value = record { payload = p; len = n; type = t; null_value = null } in
      FoundIf vid_type v (content p).0 (get_vid v)
      × FoundIf int_type v (content p).0 (get_integer v)
      × FoundIf double_type v (content p).0 (get_double v)
      × FoundIf string_type v (content p).1 (get_string v)
      × FoundIf blob_type v (content p).1 (get_blob v)
unfolding get_vid get_integer get_double get_string get_blob
get_scalar_lem p n vid_type null h = ground (arith, load_word-content p n)
get_scalar_lem p n int_type null h = ground (arith, load_word-content p n)
get_scalar_lem p n double_type null h = ground (arith, load_word-content p n)
get_scalar_lem p n string_type null h = ground (arith, load_content p n)
get_scalar_lem p n blob_type null h = ground (arith, load_content p n)
get_scalar_lem p n double_vec_type null h = absurd h
get_scalar_lem p n unknown_type null h = absurd h

-- On a valid value every getter runs without undefined behaviour: the one of the value's type
-- returns what the value holds unless it is null, and every other one returns false.
pub getters_lem :
    (v : Value)
    → IsValid v
    → FoundIf vid_type v (content v.payload).0 (get_vid v)
      × FoundIf int_type v (content v.payload).0 (get_integer v)
      × FoundIf double_type v (content v.payload).0 (get_double v)
      × FoundIf string_type v (content v.payload).1 (get_string v)
      × FoundIf blob_type v (content v.payload).1 (get_blob v)
getters_lem v h = get_scalar_lem v.payload v.len v.type v.null_value h

-- The destructor frees the block of a valid value without undefined behaviour: it leaves a valid
-- value of the same type that holds no bytes.
pub free_data_lem :
    (v : Value)
    → IsValid v
    → (w : Value) × (free_data v ≡ ok w)
      × IsValid w
      × (w.type ≡ v.type)
      × ((content w.payload).1 ≡ [])
unfolding free_data
free_data_lem v h = freed v.payload v.len v.type v.null_value h
  where
    freed :
        (p : Payload) (n : ℕ) (t : Datatype) (null : Bool)
        → Fits t p n
        → let u : Value = record { payload = p; len = n; type = t; null_value = null } in
          (w : Value) × (free_data u ≡ ok w)
          × IsValid w
          × (w.type ≡ t)
          × ((content w.payload).1 ≡ [])
    freed (word x) n vid_type null h = (_, refl, h, refl, refl)
    freed (word x) n int_type null h = (_, refl, h, refl, refl)
    freed (word x) n double_type null h = (_, refl, h, refl, refl)
    freed (word x) n string_type null h = (
      record { payload = word x; len = n; type = string_type; null_value = null },
      ground arith,
      h,
      refl,
      refl,
    )
    freed (word x) n blob_type null h = (
      record { payload = word x; len = n; type = blob_type; null_value = null },
      ground arith,
      h,
      refl,
      refl,
    )
    freed (buffer b) n string_type null h = (_, refl, (refl, refl), refl, refl)
    freed (buffer b) n blob_type null h = (_, refl, (refl, refl), refl, refl)
    freed (buffer b) n vid_type null h = absurd h
    freed (buffer b) n int_type null h = absurd h
    freed (buffer b) n double_type null h = absurd h
    freed p n double_vec_type null h = absurd h
    freed p n unknown_type null h = absurd h
