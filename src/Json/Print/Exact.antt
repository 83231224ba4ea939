-- ===== src/Json/Print/Exact.antt =====
-- src/json.c: `json_stringify` and the text of the value.
use modern_c_web_library.Base.{
  ℕ, ◌+◌, ◌-◌, ◌^◌, ◌≤◌, ◌<◌, ◌≡◌, refl, sym, ap, ◌∙◌, Bool, true, false, some, [], ◌++◌,
  append_assoc, append-nil, codes, Bytes, length, length-append, arith, Option-cases, inl, inr,
}
use modern_c_web_library.Http.{HttpResponse}
use modern_c_web_library.Http.Lists.{Granted}
use modern_c_web_library.Json.{
  JsonValue, json_null, json_bool, json_number, json_string, json_object, json_array, Entries,
  no_entry, entry,
}
use modern_c_web_library.Json.Print.{
  Output, Printed, printed, not_printed, overrun, hung, snprintf, ensure_capacity, stringify_string,
  stringify_kind, stringify_entries, stringify_value, json_stringify, http_response_send_json,
}
use modern_c_web_library.Json.Print.Text.{
  escaped, named, spend, json_text, entries_text, room_after, room_after_entries,
}
use modern_c_web_library.Json.Print.Room.{
  Room, Yields, Yields->>=, Yields-map, snprintf-Room, Room-weaken, Room-text, between, spend-eq,
  ensure_capacity-Room, stringify_string-Room,
}

module _ (alloc : ℕ → Bool) (granted : Granted alloc) (format_g : ℕ → Bytes) where
  -- A text that is written by one call.
  scalar-Room :
      (s t : Bytes) (m r : ℕ) (out : Output)
      → Room t 256 out
      → some m ≡ some r
      → length s + m ≤ 256 × 0 < m
      → Yields (Room (t ++ s) r) (snprintf s out)
  scalar-Room s t m r out room e (le, pos) =
      Yields-map _ _ (snprintf s out) (snprintf-Room t s 256 out room (omega (arith, le, pos)))
        λ out'. Room-weaken (t ++ s) _ r out' (ground (arith, e, le))

  -- What is shown of a value, and of the entries from some room on.
  abbrev ValueRoom : JsonValue → Type 0
  ValueRoom v =
      (t : Bytes) (r : ℕ) (out : Output)
      → Room t 256 out
      → room_after format_g v ≡ some r
      → length t + length (json_text format_g v) + 256 ≤ 2 ^ 63
      → Yields (Room (t ++ json_text format_g v) r) (stringify_kind alloc format_g v out)

  abbrev EntriesRoom : Bool → Entries → Type 0
  EntriesRoom first es =
      (t : Bytes) (q r : ℕ) (out : Output)
      → Room t q out
      → room_after_entries format_g q first es ≡ some r
      → length t + length (entries_text format_g first es) + 256 ≤ 2 ^ 63
      → Yields (Room (t ++ entries_text format_g first es) r)
          (stringify_entries alloc format_g first es out)

  -- A key, its value and the entries behind them.
  member-Room :
      (k : Bytes) (v : JsonValue) (es : Entries)
      → ValueRoom v
      → EntriesRoom false es
      → EntriesRoom true (entry k v es)
  unfolding stringify_kind room_after json_text
  member-Room k v es value_room entries_room t q r out room e small =
      elim (Option-cases (spend q (length (named k)))) [
        | inl none' ↦ ground (arith, none', e)
        | inr (p, some') ↦ elim (Option-cases (room_after format_g v)) [
          | inl none' ↦ ground (arith, none', some', e)
          | inr (p', e') ↦
              let (fits, left) = spend-eq q (length (named k)) p some' in
              let value_text = json_text format_g v in
              let named_length : length (t ++ named k) ≡ length t + length (named k) =
                length-append t (named k) in
              let inner_length : length (named k ++ value_text)
                  ≡ length (named k) + length value_text =
                length-append (named k) value_text in
              let all_length =
                length-append (named k ++ value_text) (entries_text format_g false es) in
              let value_length = length-append (t ++ named k) value_text in
              Yields->>= _ _ (snprintf (named k) out) _ (snprintf-Room t (named k) q out room fits)
                λ out₁ h₁.
                  Yields->>= _ _ (ensure_capacity alloc (out₁.output_length + 256) out₁) _
                    (ensure_capacity-Room alloc granted (out₁.output_length + 256) (t ++ named k)
                      (q - length (named k)) out₁ h₁ (omega (arith, fits)) (omega (arith, h₁.2))
                      (omega (arith, small, named_length, all_length, inner_length)))
                    λ out₂ h₂.
                      Yields->>= _ _ (stringify_kind alloc format_g v out₂) _
                        (value_room (t ++ named k) p' out₂ h₂ e'
                          (omega (arith, small, named_length, all_length, inner_length)))
                        λ out₃ h₃.
                          Yields-map _ _ (stringify_entries alloc format_g false es out₃)
                            (entries_room ((t ++ named k) ++ json_text format_g v) p' r out₃ h₃
                              (ground (arith, e, some', e'))
                              (omega (
                                arith, small, named_length, all_length, inner_length, value_length,
                              )))
                            λ out₄.
                              Room-text _ _ _ _ out₄
                                (ap (λ u. u ++ entries_text format_g false es)
                                    (append_assoc t (named k) value_text)
                                  ∙ append_assoc t (named k ++ value_text)
                                      (entries_text format_g false es))
                                (omega arith)
        ]
      ]

  mutual
    unfolding stringify_kind room_after json_text

    stringify_kind-Room : (v : JsonValue) → ValueRoom v
    stringify_kind-Room json_null t r out room e small =
        scalar-Room (codes "null") t 252 r out room e (omega arith)
    stringify_kind-Room (json_bool true) t r out room e small =
        scalar-Room (codes "true") t 251 r out room e (omega arith)
    stringify_kind-Room (json_bool false) t r out room e small =
        scalar-Room (codes "false") t 251 r out room e (omega arith)
    stringify_kind-Room (json_number num) t r out room e small =
        let (fits, left) = spend-eq 256 (length (format_g num)) r e in
        scalar-Room (format_g num) t r r out room refl (omega (arith, fits, left))
    stringify_kind-Room (json_string s) t r out room e small =
        Yields-map _ _ (stringify_string alloc s out)
          (stringify_string-Room alloc granted t s out room
            (omega (arith, small, length-append (escaped s) (codes "\""))))
          λ out'. Room-weaken _ _ r out' (ground (arith, e))
    stringify_kind-Room (json_object es) t r out room e small =
        elim (Option-cases (room_after_entries format_g 255 true es)) [
          | inl none' ↦ ground (arith, none', e)
          | inr (q, some') ↦
              let opened : length (t ++ codes "{") ≡ length t + 1 = length-append t (codes "{") in
              let (fits, left) = spend-eq q 1 r (ground (arith, some', e)) in
              Yields->>= _ _ (snprintf (codes "{") out) _
                (snprintf-Room t (codes "{") 256 out room (omega arith))
                λ out₁ h₁.
                  Yields->>= _ _ (stringify_entries alloc format_g true es out₁) _
                    (stringify_entries-Room true es (t ++ codes "{") 255 q out₁ h₁ some' (
                      omega (
                        arith,
                        small,
                        opened,
                        length-append (entries_text format_g true es) (codes "}"),
                      )))
                    λ out₂ h₂.
                      Yields-map _ _ (snprintf (codes "}") out₂)
                        (snprintf-Room _ (codes "}") q out₂ h₂ (omega (arith, fits)))
                        λ out₃.
                          Room-text _ _ _ _ out₃
                            (between t (entries_text format_g true es) (codes "{") (codes "}"))
                            (omega (arith, left))
        ]
    stringify_kind-Room json_array t r out room e small =
        scalar-Room (codes "[]") t 254 r out room e (omega arith)

    stringify_entries-Room : (first : Bool) (es : Entries) → EntriesRoom first es
    stringify_entries-Room first no_entry t q r out room e small =
        Room-text t (t ++ []) q r out (sym (append-nil t)) (ground (arith, e)) room
    stringify_entries-Room true (entry k v es) t q r out room e small =
        member-Room k v es (stringify_kind-Room v) (stringify_entries-Room false es) t q r out room
          e small
    stringify_entries-Room false (entry k v es) t q r out room e small =
        elim (Option-cases (spend q 1)) [
          | inl none' ↦ ground (arith, none', e)
          | inr (p, some') ↦
              let (fits, left) = spend-eq q 1 p some' in
              let separated : length (t ++ codes ",") ≡ length t + 1 =
                length-append t (codes ",") in
              Yields->>= _ _ (snprintf (codes ",") out) _
                (snprintf-Room t (codes ",") q out room fits)
                λ out₁ h₁.
                  Yields-map _ _ _
                    (member-Room k v es (stringify_kind-Room v) (stringify_entries-Room false es)
                      (t ++ codes ",") p r out₁ (Room-weaken _ _ p out₁ (omega (arith, left)) h₁)
                      (ground (arith, e, some')) (omega (arith, small, separated)))
                    λ out₂. Room-text _ _ _ _ out₂ (append_assoc t (codes ",") _) (omega arith)
        ]

  -- When memory is granted, the text of the value has at most 2^63 - 256 bytes and room is always left for
  -- what is written, `json_stringify` returns a buffer that holds the whole text, and in which the NUL has its
  -- place.
  pub json_stringify-json_text :
      (v : JsonValue) (r : ℕ)
      → room_after format_g v ≡ some r
      → length (json_text format_g v) + 256 ≤ 2 ^ 63
      → (out : Output) × (json_stringify alloc format_g v ≡ printed out)
        × (out.text ≡ json_text format_g v)
        × (out.cut ≡ false)
        × (out.output_length + r ≤ out.capacity)
  unfolding json_stringify stringify_value ensure_capacity
  json_stringify-json_text v r e small =
      go (stringify_kind alloc format_g v start) refl
        (stringify_kind-Room v [] r start (refl, refl, refl, omega arith) e (omega (arith, small)))
    where
      start : Output
      start = record { text = []; cut = false; output_length = 0; capacity = 256 }

      begun : json_stringify alloc format_g v ≡ stringify_kind alloc format_g v start
      begun = rw (granted 256) refl

      go :
          (p : Printed)
          → stringify_kind alloc format_g v start ≡ p
          → Yields (Room (json_text format_g v) r) p
          → (out : Output) × (json_stringify alloc format_g v ≡ printed out)
            × (out.text ≡ json_text format_g v)
            × (out.cut ≡ false)
            × (out.output_length + r ≤ out.capacity)
      go (printed out) q (e₁, e₂, e₃, le) = (out, begun ∙ q, e₁, e₂, omega (arith, e₃, le))
      go not_printed q h = absurd h
      go overrun q h = absurd h
      go hung q h = absurd h

  -- When memory is granted, the text of the value has at most 2^63 - 256 bytes and room is always left,
  -- `http_response_send_json` sets the status and puts the whole text of the value, and its length, in place
  -- of the body that was there.
  pub http_response_send_json-json_text :
      (res : HttpResponse) (status : ℕ) (v : JsonValue) (r : ℕ)
      → room_after format_g v ≡ some r
      → length (json_text format_g v) + 256 ≤ 2 ^ 63
      → http_response_send_json alloc format_g res status v
        ≡ some (record res {
          status = status;
          body = some (json_text format_g v);
          body_length = length (json_text format_g v);
        })
  unfolding http_response_send_json
  http_response_send_json-json_text res status v r e small =
      let (out, printed', text', _, _) = json_stringify-json_text v r e small in
      ground (arith, printed', text')
