-- ===== src/Client/Message/Frames.antt =====
-- The bytes of a message of Extensions/Client/client.cpp, without the state of the sender.
use buildpal.Prelude.{
  ℕ, zero, ◌+◌, ◌%◌, ◌^◌, ◌<◌, ◌≡◌, refl, sym, ap, ◌∙◌, List, [], ◌∷◌, ◌++◌, foldl, append-nil,
  append_assoc, length, All, arith, length-append, take_all, Bool-cases, inl, inr, ◌==◌, ==_iff,
}
use buildpal.Client.Bytes.{to_byte_array, length-to_byte_array}
use buildpal.Client.Message.{MsgSender, init_message, add_part, send, concat, message}

-- each part behind its length
abbrev pub frames : List (List ℕ) → List ℕ
frames [] = []
frames (p ∷ ps) = to_byte_array 4 (length p) ++ (p ++ frames ps)

abbrev pub FitsWord : List ℕ → Type 0
FitsWord p = length p < 2 ^ 32

concat-append : (bs cs : List (List ℕ)) → concat (bs ++ cs) ≡ concat bs ++ concat cs
concat-append [] cs = refl
concat-append (b ∷ bs) cs = rw (concat-append bs cs) (sym (append_assoc b (concat bs) (concat cs)))

nil_of_length {ℓ} : {A : Type ℓ} (xs : List A) → length xs ≡ 0 → xs ≡ []
nil_of_length [] h = refl
nil_of_length (x ∷ xs) h = absurd (omega arith)

add_part-buffers :
    (s : MsgSender) (p : List ℕ)
    → FitsWord p
    → concat (add_part s p).buffers ≡ concat s.buffers ++ (to_byte_array 4 (length p) ++ p)
unfolding add_part
add_part-buffers s p h =
    let e : length p % 2 ^ 32 ≡ length p = omega arith in
    rw e (elim (Bool-cases (length p == 0)) [
      | inl empty ↦
          let none_left = nil_of_length p ((==_iff _ _).0 empty) in
          rw (empty, concat-append)
            (ap (λ (t : List ℕ). concat s.buffers ++ (to_byte_array 4 (length p) ++ t))
              (sym none_left))
      | inr full ↦ rw (full, take_all, concat-append) (simp append-nil)
    ])

add_part-total_length :
    (s : MsgSender) (p : List ℕ)
    → FitsWord p
    → (add_part s p).total_length ≡ (s.total_length + (4 + length p)) % 2 ^ 32
unfolding add_part
add_part-total_length s p h = omega (arith, length-to_byte_array 4 (length p % 2 ^ 32))

pub length-frames :
    (p : List ℕ) (ps : List (List ℕ)) → length (frames (p ∷ ps)) ≡ 4 + length p + length (frames ps)
length-frames p ps = omega (
  arith,
  length-append (to_byte_array 4 (length p)) (p ++ frames ps),
  length-append p (frames ps),
  length-to_byte_array 4 (length p),
)

pub foldl-add_part :
    (ps : List (List ℕ)) (s : MsgSender)
    → All FitsWord ps
    → s.total_length < 2 ^ 32
    → s.part_count < 2 ^ 16
    → (concat (foldl add_part s ps).buffers ≡ concat s.buffers ++ frames ps)
      × ((foldl add_part s ps).total_length ≡ (s.total_length + length (frames ps)) % 2 ^ 32)
      × ((foldl add_part s ps).part_count ≡ (s.part_count + length ps) % 2 ^ 16)
foldl-add_part [] s h ht hc = (sym (append-nil _), omega arith, omega arith)
foldl-add_part (p ∷ ps) s h ht hc =
    let (b, t, c) =
      foldl-add_part ps (add_part s p) h.1 (unfold add_part in omega arith)
        (unfold add_part in omega arith) in
    (
      b
          ∙ ap (λ (t : List ℕ). t ++ frames ps) (add_part-buffers s p h.0)
          ∙ append_assoc (concat s.buffers) _ (frames ps)
          ∙ ap (λ (t : List ℕ). concat s.buffers ++ t)
              (append_assoc (to_byte_array 4 (length p)) p (frames ps)),
      omega (arith, t, add_part-total_length s p h.0, length-frames p ps),
      c ∙ unfold add_part in omega arith,
    )

-- The bytes of a message: its length, its number of parts, and the parts behind their lengths.
pub message_lem :
    (ps : List (List ℕ))
    → All FitsWord ps
    → message ps
      ≡ to_byte_array 4 ((2 + length (frames ps)) % 2 ^ 32)
        ++ (to_byte_array 2 (length ps % 2 ^ 16) ++ frames ps)
unfolding message send
message_lem ps h =
    let (b, t, c) = foldl-add_part ps init_message h (omega arith) (omega arith) in
    rw (b, t, c) (simp add_zero_left)
  where
    add_zero_left : zero + length ps ≡ length ps
    add_zero_left = omega arith
