-- ===== src/Models/Txt/Strings.antt =====
-- The strings that validateTXTRecord of internal/models/txt.go reads from a target.
use errantdns_io.Base.{
  ℕ, ◌≤◌, Bool, true, false, not, none, some, List, [], ◌∷◌, ◌++◌, ltb, ◌==◌, ◌≡◌, ◌≢◌, arith,
  length, append_assoc, append-nil, Option-cases, inl, inr, Bool-cases, ◌⊎◌, sym, subst,
}
use mathlib.Core.Option.{some-injective}
use errantdns_io.Base.Text.{Bytes, eqb, eqb_iff}
use errantdns_io.Models.Errors.{ValidationError, txt_unclosed, txt_string, txt_utf8, reject, ◌>>◌}
use errantdns_io.Models.Record.{DnsRecord}
use errantdns_io.Models.Txt.{
  Scan, read_character, scan_txt, finish_txt, valid_utf8, validate_txt_record,
}

-- Every string that has ended has at most 255 bytes.
abbrev pub AllShort : List Bytes → Type 0
AllShort [] = Unit
AllShort (s ∷ ss) = (length s ≤ 255) × AllShort ss

AllShort-append : (ss ts : List Bytes) → AllShort ss → AllShort ts → AllShort (ss ++ ts)
AllShort-append [] ts h k = k
AllShort-append (s ∷ ss) ts (a, h) k = (a, AllShort-append ss ts h k)

-- A round leaves the strings alone, or ends the current one, which is then no longer than 255 bytes.
strings-read_character :
    (c : ℕ) (s s' : Scan)
    → read_character c s ≡ some s'
    → (s'.strings ≡ s.strings)
      ⊎ ((s'.strings ≡ s.strings ++ s.current ∷ []) × (length s.current ≤ 255))
unfolding read_character
strings-read_character c s s' e = ground arith

AllShort-read_character :
    (c : ℕ) (s s' : Scan) → AllShort s.strings → read_character c s ≡ some s' → AllShort s'.strings
AllShort-read_character c s s' h e = elim (strings-read_character c s s' e) [
  | inl same ↦ subst AllShort (sym same) h
  | inr (more, short) ↦
      subst AllShort (sym more) (AllShort-append s.strings (s.current ∷ []) h (short, tt))
]

scan_txt-AllShort :
    (s s' : Scan) (escaped : Bool) (t : Bytes)
    → AllShort s.strings
    → scan_txt s escaped t ≡ some s'
    → AllShort s'.strings
unfolding scan_txt
scan_txt-AllShort s s' escaped [] h e = subst (λ z. AllShort z.strings) (some-injective s s' e) h
scan_txt-AllShort s s' true (c ∷ t) h e =
    scan_txt-AllShort (record s { current = s.current ++ c ∷ [] }) s' false t h e
scan_txt-AllShort s s' false (c ∷ t) h e = elim (Bool-cases (c == b'\\')) [
  | inl back ↦
      scan_txt-AllShort (record s { current = s.current ++ c ∷ [] }) s' true t h (ground arith)
  | inr other ↦ elim (Option-cases (read_character c s)) [
    | inl bad ↦ absurd (ground arith)
    | inr (m, read) ↦
        scan_txt-AllShort m s' false t (AllShort-read_character c s m h read) (ground arith)
  ]
]

abbrev pub start : Scan
start = record { current = []; in_quotes = false; strings = [] }

finish_parts :
    (a b c d : Bool) (e f g i : ValidationError)
    → (reject a e >> reject b f >> reject c g >> reject d i) ≡ none
    → (a ≡ false) × (b ≡ false) × (d ≡ false)
finish_parts a b c d e f g i h = ground arith

finish_txt_lem :
    (t : Bytes) (s : Scan)
    → finish_txt t s ≡ none
    → (s.in_quotes ≡ false) × (length s.current ≤ 255) × (valid_utf8 t ≡ true)
unfolding finish_txt
finish_txt_lem t s h =
    let (a, b, c) =
      finish_parts s.in_quotes (ltb 255 (length s.current)) _ (not (valid_utf8 t)) txt_unclosed
        txt_string txt_string txt_utf8 h in
    (a, ground arith, ground arith)

-- A target that validateTXTRecord accepts is empty, or it is valid UTF-8 of at most 65535 bytes whose
-- quotes are closed, and each string that is read from it, the unfinished one at its end included,
-- has at most 255 bytes.
pub validate_txt_record-AllShort :
    (r : DnsRecord)
    → validate_txt_record r ≡ none
    → (r.target ≡ [])
      ⊎ ((s : Scan) × (scan_txt start false r.target ≡ some s)
          × (length r.target ≤ 65535)
          × (s.in_quotes ≡ false)
          × AllShort (s.strings ++ s.current ∷ [])
          × (valid_utf8 r.target ≡ true))
unfolding validate_txt_record
validate_txt_record-AllShort r h = elim (Bool-cases (eqb r.target [])) [
  | inl empty ↦ inl ((eqb_iff r.target []).0 empty)
  | inr other ↦ elim (Option-cases (scan_txt start false r.target)) [
    | inl bad ↦ absurd (ground arith)
    | inr (s, read) ↦
        let (closed, short, valid) = finish_txt_lem r.target s (ground arith) in
        inr (
          s,
          read,
          ground arith,
          closed,
          AllShort-append s.strings (s.current ∷ [])
              (scan_txt-AllShort start s false r.target tt read) (short, tt),
          valid,
        )
  ]
]

-- The text of a string in quotes, with a space behind it.
quoted : List Bytes → Bytes
quoted [] = []
quoted (s ∷ ss) = b'"' ∷ s ++ b'"' ∷ b' ' ∷ quoted ss

-- Bytes with no quote and no backslash.
abbrev pub Plain : Bytes → Type 0
Plain [] = Unit
Plain (c ∷ s) = (c ≢ b'"') × (c ≢ b'\\') × Plain s

abbrev pub AllPlain : List Bytes → Type 0
AllPlain [] = Unit
AllPlain (s ∷ ss) = Plain s × (length s ≤ 255) × AllPlain ss

scan-Plain :
    (p rest cur : Bytes) (ss : List Bytes)
    → Plain p
    → scan_txt (record { current = cur; in_quotes = true; strings = ss }) false (p ++ rest)
      ≡ scan_txt (record { current = cur ++ p; in_quotes = true; strings = ss }) false rest
unfolding scan_txt read_character
scan-Plain [] rest cur ss h = rw append-nil
scan-Plain (c ∷ p) rest cur ss (q, b, h) =
    ground (arith, scan-Plain p rest (cur ++ c ∷ []) ss h, append_assoc cur (c ∷ []) p)

scan-quoted :
    (ps ss : List Bytes)
    → AllPlain ps
    → scan_txt (record { current = []; in_quotes = false; strings = ss }) false (quoted ps)
      ≡ some (record { current = []; in_quotes = false; strings = ss ++ ps })
unfolding scan_txt read_character quoted
scan-quoted [] ss h = rw append-nil
scan-quoted (p ∷ ps) ss (plain, short, h) =
    rw scan-Plain (ground (arith, scan-quoted ps (ss ++ p ∷ []) h, append_assoc ss (p ∷ []) ps))

-- Strings without quotes and backslashes of at most 255 bytes each, written in quotes with a space
-- behind each, are read back one by one.
scan_txt-quoted :
    (ps : List Bytes)
    → AllPlain ps
    → scan_txt start false (quoted ps)
      ≡ some (record { current = []; in_quotes = false; strings = ps })
scan_txt-quoted ps h = scan-quoted ps [] h
