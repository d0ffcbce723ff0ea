-- ===== src/Session/Sequence.antt =====
-- pkg/iscp/session/session.go: NextSend over a number of sends.
use iscp.Prelude.{ℕ, zero, suc, ◌+◌, ◌%◌, ◌^◌, ◌<◌, ◌≡◌, ◌≢◌, ◌∷◌, Bytes, nat_eq, arith}
use iscp.Session.{State, next_send, big_endian}

tail-eq : (x y : ℕ) (xs ys : Bytes) → x ∷ xs ≡ y ∷ ys → (x ≡ y) × (xs ≡ ys)
tail-eq x y xs ys h = (cc, cc)

big_endian-injective : (m n : ℕ) → m < 2 ^ 64 → n < 2 ^ 64 → big_endian 8 m ≡ big_endian 8 n → m ≡ n
unfolding big_endian
big_endian-injective m n a b h =
    let h7 = tail-eq _ _ _ _ h in
    let h6 = tail-eq _ _ _ _ h7.1 in
    let h5 = tail-eq _ _ _ _ h6.1 in
    let h4 = tail-eq _ _ _ _ h5.1 in
    let h3 = tail-eq _ _ _ _ h4.1 in
    let h2 = tail-eq _ _ _ _ h3.1 in
    let h1 = tail-eq _ _ _ _ h2.1 in
    let h0 = tail-eq _ _ _ _ h1.1 in
    omega (arith, h0.0, h1.0, h2.0, h3.0, h4.0, h5.0, h6.0, h7.0, a, b)

-- The session after a number of sends.
abbrev pub sends : ℕ → State → State
sends zero st = st
sends (suc n) st = (next_send (sends n st)).0

-- The nonce of the send after so many.
abbrev pub nonce_at : State → ℕ → Bytes
nonce_at st n = (next_send (sends n st)).2

sends-seq :
    (n : ℕ) (st : State) → st.send_seq < 2 ^ 64 → (sends n st).send_seq ≡ (st.send_seq + n) % 2 ^ 64
unfolding next_send
sends-seq zero st b = omega (arith, b)
sends-seq (suc n) st b = let before = sends-seq n st b in omega (arith, before)

-- From a sequence number that is a uint64, any two of 2^64 successive sends use different nonces.
pub next_send-nonces :
    (st : State) (i j : ℕ)
    → st.send_seq < 2 ^ 64
    → i < j
    → j < i + 2 ^ 64
    → nonce_at st i ≢ nonce_at st j
unfolding next_send
next_send-nonces st i j b less near same =
    let x = (sends i st).send_seq in
    let y = (sends j st).send_seq in
    let at_i = sends-seq i st b in
    let at_j = sends-seq j st b in
    let h3 = tail-eq _ _ _ _ same in
    let h2 = tail-eq _ _ _ _ h3.1 in
    let h1 = tail-eq _ _ _ _ h2.1 in
    let h0 = tail-eq _ _ _ _ h1.1 in
    let e = big_endian-injective x y (omega (arith, at_i)) (omega (arith, at_j)) h0.1 in
    omega (arith, at_i, at_j, e, less, near)
