-- ===== src/Aead/Overrun.antt =====
-- gate0_crypto.c: the terminator is written behind the array.
use gate.Base.{
  ◌≡◌, refl, ap, true, [], ◌∷◌, ◌++◌, none, some, Bytes, drop, length, length-append, arith,
}
use gate.Aead.{Aead, store, aead_main}

drop_all : (xs ys : Bytes) → length ys ≡ length xs → drop (length xs) ys ≡ []
drop_all [] [] h = refl
drop_all [] (y ∷ ys) h = absurd (omega arith)
drop_all (x ∷ xs) [] h = absurd (omega arith)
drop_all (x ∷ xs) (y ∷ ys) h = drop_all xs ys (omega arith)

store-behind :
    (msg stack : Bytes)
    → length stack ≡ length msg
    → store (msg ++ drop (length msg) stack) (length msg) 0 ≡ none
unfolding store
store-behind msg stack h =
    let size = length-append msg (drop (length msg) stack) in
    let nothing_left = ap length (drop_all msg stack h) in ground (arith, size, nothing_left)

-- Where decryption gives back what was encrypted, as it should, the program never comes to its end: whatever
-- the message, it writes the NUL behind the array of the message's length.
pub aead_main-overruns :
    (a : Aead) (key nonce msg stack : Bytes)
    → a.decrypt (a.encrypt msg nonce key) nonce key ≡ some msg
    → length stack ≡ length msg
    → aead_main a true key nonce msg stack ≡ none
unfolding aead_main
aead_main-overruns a key nonce msg stack e h = rw (e, store-behind msg stack h) refl
