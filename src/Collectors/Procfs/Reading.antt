-- ===== src/Collectors/Procfs/Reading.antt =====
-- `read_into` and `ProcFile` of src/core/collectors/procfs.rs. What opening the file and its reads return is an
-- argument, and so is the length to which the buffer is widened for the read that fails, which leaves zeros there.
use blazebee.Base.{
  ℕ, zero, suc, ◌≡◌, refl, sym, ap, ◌∙◌, Option, none, some, List, [], ◌∷◌, ◌++◌, map, append_assoc,
  append-nil, take, length, Result, ok, err, ◌>>◌, map_err, All,
}
use blazebee.Base.Text.{Text, codes}
use blazebee.Base.Utf8.{as_bytes, from_utf8}
use blazebee.Base.Utf8.Sequences.{IsScalar}
use blazebee.Base.Utf8.RoundTrip.{from_utf8-append, prefixed}
use blazebee.Error.{IoError, invalid_data}
use blazebee.Framer.{Bytes}
use blazebee.Collectors.Error.{CollectorError}

abbrev zeros : ℕ → Bytes
zeros zero = []
zeros (suc n) = 0 ∷ zeros n

-- The loop: it ends at a read of nothing, or at an error.
unfoldable pub read_loop :
    ℕ → Bytes → List (Result IoError Bytes) → Bytes × Result IoError (Unit {0})
read_loop want bytes [] = (bytes, ok tt)
read_loop want bytes (err e ∷ reads) = (bytes ++ zeros want, err e)
read_loop want bytes (ok [] ∷ reads) = (bytes, ok tt)
read_loop want bytes (ok (b ∷ chunk) ∷ reads) = read_loop want (bytes ++ (b ∷ chunk)) reads

abbrev pub not_utf8 : IoError
not_utf8 = record { kind = invalid_data; message = codes "file is not valid UTF-8" }

-- `String::from_utf8(text).unwrap_or_default()`
abbrev or_default : Option Text → Text
or_default none = []
or_default (some text) = text

-- The end of `read_into`: the buffer, and the result.
unfoldable pub settle : ℕ → Bytes × Result IoError (Unit {0}) → Text × Result IoError (Unit {0})
settle start (bytes, result) = elim (from_utf8 bytes) [
  | some text ↦ (text, result)
  | none ↦ (or_default (from_utf8 (take start bytes)), err not_utf8)
]

unfoldable pub read_into :
    ℕ → Result IoError (List (Result IoError Bytes)) → Text → Text × Result IoError (Unit {0})
read_into want (err e) buf = (buf, err e)
read_into want (ok reads) buf = settle (length (as_bytes buf)) (read_loop want (as_bytes buf) reads)

-- What a file holds: the bytes up to the first read of nothing.
unfoldable pub contents : List Bytes → Bytes
contents [] = []
contents ([] ∷ chunks) = []
contents ((b ∷ chunk) ∷ chunks) = (b ∷ chunk) ++ contents chunks

read_loop-contents :
    (want : ℕ) (bytes : Bytes) (chunks : List Bytes)
    → read_loop want bytes (map ok chunks) ≡ (bytes ++ contents chunks, ok tt)
unfolding read_loop contents
read_loop-contents want bytes [] = ap (λ bs. (bs, ok tt)) (sym (append-nil bytes))
read_loop-contents want bytes ([] ∷ chunks) = ap (λ bs. (bs, ok tt)) (sym (append-nil bytes))
read_loop-contents want bytes ((b ∷ chunk) ∷ chunks) =
    read_loop-contents want (bytes ++ (b ∷ chunk)) chunks
    ∙ ap (λ bs. (bs, ok tt)) (append_assoc bytes (b ∷ chunk) (contents chunks))

take-length : (s t : Bytes) → take (length s) (s ++ t) ≡ s
take-length [] t = refl
take-length (b ∷ s) t = ap (λ r. b ∷ r) (take-length s t)

from_utf8_nil : from_utf8 [] ≡ some []
unfolding from_utf8
from_utf8_nil = refl

from_utf8-as_bytes : (s : Text) → All IsScalar s → from_utf8 (as_bytes s) ≡ some s
from_utf8-as_bytes s h =
    ap from_utf8 (sym (append-nil (as_bytes s)))
    ∙ from_utf8-append s [] h
    ∙ ap (prefixed s) from_utf8_nil
    ∙ ap some (append-nil s)

abbrev pub Appended : Text → Option Text → Text × Result IoError (Unit {0}) → Type 0
Appended buf (some text) r = r ≡ (buf ++ text, ok tt)
Appended buf none r = r ≡ (buf, err not_utf8)

settle-Appended :
    (buf : Text) (bytes : Bytes) (decoded : Option Text)
    → All IsScalar buf
    → from_utf8 bytes ≡ decoded
    → Appended buf decoded (settle (length (as_bytes buf)) (as_bytes buf ++ bytes, ok tt))
unfolding settle
settle-Appended buf bytes (some text) h e = rw (settle, from_utf8-append buf bytes h, e) refl
settle-Appended buf bytes none h e =
    rw
      (
        settle,
        from_utf8-append buf bytes h,
        e,
        take-length (as_bytes buf) bytes,
        from_utf8-as_bytes buf h,
      )
      refl

-- Reads that do not fail append the decoded file to the buffer, however the file is cut into reads; if the file is
-- not UTF-8, the buffer is left as it was, with an error that says so.
pub read_into-Appended :
    (want : ℕ) (chunks : List Bytes) (buf : Text)
    → All IsScalar buf
    → Appended buf (from_utf8 (contents chunks)) (read_into want (ok (map ok chunks)) buf)
unfolding read_into
read_into-Appended want chunks buf h =
    rw (read_loop-contents want (as_bytes buf) chunks)
      (settle-Appended buf (contents chunks) (from_utf8 (contents chunks)) h refl)

pub record ProcFile : Type 0 where
  pub path : Text
  pub buf : Text

-- ProcFile::read
unfoldable pub read :
    ℕ
    → Result IoError (List (Result IoError Bytes))
    → ProcFile
    → ProcFile × Result CollectorError Text
read want opened file =
    let done = read_into want opened [] in
    (record file { buf = done.0 }, map_err (CollectorError.read file.path) done.1 >> ok done.0)

abbrev pub Read : ProcFile → Option Text → ProcFile × Result CollectorError Text → Type 0
Read file (some text) (file', r) = (r ≡ ok text) × (file'.buf ≡ text) × (file'.path ≡ file.path)
Read file none (file', r) = r ≡ err (CollectorError.read file.path not_utf8)

-- What a file that can be read gives does not depend on what was in the buffer before.
pub read-Read :
    (want : ℕ) (chunks : List Bytes) (file : ProcFile)
    → Read file (from_utf8 (contents chunks)) (read want (ok (map ok chunks)) file)
unfolding read
read-Read want chunks file = go (from_utf8 (contents chunks)) (read_into-Appended want chunks [] tt)
  where
    go :
        (o : Option Text)
        → Appended [] o (read_into want (ok (map ok chunks)) [])
        → Read file o (read want (ok (map ok chunks)) file)
    go (some text) h = rw (read, h) ((refl, refl, refl))
    go none h = rw (read, h) refl
