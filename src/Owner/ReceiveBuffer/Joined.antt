-- ===== src/Owner/ReceiveBuffer/Joined.antt =====
-- `#joined` of src/owner/receive-buffer.ts.
use serial_broker.Prelude.{
  ℕ, suc, ◌+◌, some, List, [], ◌∷◌, ◌++◌, ◌≡◌, refl, ap, ◌∙◌, arith, length, length-append,
  append_assoc, append-nil, subst,
}
use serial_broker.Owner.ReceiveBuffer.{
  ReceiveBuffer, zeros, overwrite, set_bytes, join_from, joined, collected,
}

abbrev pub concat : List (List ℕ) → List ℕ
concat [] = []
concat (c ∷ cs) = c ++ concat cs

zeros-suc : (m n : ℕ) → zeros (suc m + n) ≡ 0 ∷ zeros (m + n)
zeros-suc m n = let e : suc m + n ≡ suc (m + n) = omega arith in ap zeros e

zeros_none : (n : ℕ) → zeros (0 + n) ≡ zeros n
zeros_none n = let e : 0 + n ≡ n = omega arith in ap zeros e

overwrite-zeros : (c : List ℕ) (n : ℕ) → overwrite (zeros (length c + n)) c ≡ some (c ++ zeros n)
overwrite-zeros [] n = ap some (zeros_none n)
overwrite-zeros (x ∷ c) n = rw (zeros-suc (length c) n, overwrite-zeros c n) refl

set_bytes-zeros :
    (written c : List ℕ) (n : ℕ)
    → set_bytes (written ++ zeros (length c + n)) (length written) c
      ≡ some (written ++ (c ++ zeros n))
set_bytes-zeros [] c n = overwrite-zeros c n
set_bytes-zeros (x ∷ written) c n = rw (set_bytes-zeros written c n) refl

join_from-written :
    (c : List ℕ) (cs : List (List ℕ)) (offset : ℕ) (old next : List ℕ)
    → set_bytes old offset c ≡ some next
    → join_from (c ∷ cs) offset old ≡ join_from cs (offset + length c) next
join_from-written c cs offset old next e = rw (e, join_from) refl

join_from_lem :
    (cs : List (List ℕ)) (written : List ℕ)
    → join_from cs (length written) (written ++ zeros (length (concat cs)))
      ≡ some (written ++ concat cs)
join_from_lem [] written = refl
join_from_lem (c ∷ cs) written =
    let n : ℕ = length (concat cs) in
    ap (λ m. join_from (c ∷ cs) (length written) (written ++ zeros m)) (length-append c (concat cs))
    ∙ join_from-written c cs (length written) _ _ (set_bytes-zeros written c n)
    ∙ subst (λ w. join_from cs (length written + length c) w ≡ some (written ++ (c ++ concat cs)))
        (append_assoc written c (zeros n))
        (subst
          (λ m. join_from cs m ((written ++ c) ++ zeros n) ≡ some (written ++ (c ++ concat cs)))
          (length-append written c)
          (join_from_lem cs (written ++ c) ∙ ap some (append_assoc written c (concat cs))))

pub joined_lem :
    (b : ReceiveBuffer)
    → b.byte_length ≡ length (concat b.chunks)
    → joined b ≡ some (concat b.chunks)
unfolding joined
joined_lem b e = ap (λ n. join_from b.chunks 0 (zeros n)) e ∙ join_from_lem b.chunks []

pub collected_lem :
    (cs : List (List ℕ)) (b : ReceiveBuffer)
    → b.chunks ≡ cs
    → b.byte_length ≡ length (concat b.chunks)
    → collected cs b ≡ some (concat cs)
unfolding collected
collected_lem [] b w e = joined_lem b e ∙ rw w refl
collected_lem (c ∷ []) b w e = rw (append-nil c) refl
collected_lem (c ∷ d ∷ cs) b w e = joined_lem b e ∙ rw w refl
