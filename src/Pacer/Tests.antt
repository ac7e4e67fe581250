-- ===== src/Pacer/Tests.antt =====
-- Three calls of a pacer with a gap of 1200.
use open_vr_pair_driver.Base.{◌∷◌, [], List, true, false, arith, codes}
use open_vr_pair_driver.Pacer.{Entry, chatbox_pacer}
use open_vr_pair_driver.Pacer.Pace.{Op, puts, gets, sends, AreApart, sends_apart}

abbrev hello : Entry
hello = record { text = codes "hello"; send_immediate = true; notify = false }

abbrev calls : List Op
calls = puts hello ∷ puts hello ∷ gets 100 ∷ gets 900 ∷ gets 1300 ∷ []

sends_apart_example : AreApart 1200 (sends (chatbox_pacer 1200) calls)
sends_apart_example = sends_apart 1200 calls (omega arith, (omega arith, (omega arith, tt)))
