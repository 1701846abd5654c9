-- ===== src/Draft/Examples.antt =====
-- The editor on a few concrete keys, and an instance of the theorem. Every character is one column wide
-- in the examples.
use idk.Common.{◌≡◌, refl, [], ◌∷◌, false, length, arith, ok}
use idk.Draft.{
  CommitDraft, KeyEvent, key, press, backspace_key, backspace, split_at, drain, last_index,
}
use idk.Draft.Keys.{Lands, key-IsValid}

-- An umlaut of two bytes and a letter; the cursor stands behind the umlaut.
abbrev draft : CommitDraft
draft = record { text = 0xe4 ∷ b'b' ∷ []; cursor = 2 }

abbrev erase : KeyEvent
erase = record { code = backspace_key; control = false; alt = false; super = false }

erase_run : key length draft erase ≡ ok (record { text = b'b' ∷ []; cursor = 0 }, ok tt)
unfolding key press backspace split_at drain last_index
erase_run = refl

key-IsValid_example : Lands draft (key length draft erase)
key-IsValid_example = key-IsValid length draft erase (record {
  before = 0xe4 ∷ [];
  behind = b'b' ∷ [];
  parts = refl;
  stands = refl;
  fits = omega arith;
})
