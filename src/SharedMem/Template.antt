-- ===== src/SharedMem/Template.antt =====
-- The text that `main` of src/haussteuerung.cpp puts into the shared memory before the objects
-- write to it: the 28 elements, and what stands behind each of them.
use haussteuerung.Prelude.{ℕ, suc, ◌≡◌, refl, List, [], ◌∷◌, ◌++◌}
use haussteuerung.Prelude.Text.{Text, codes}
use haussteuerung.SharedMem.Pieces.{Piece, mark, plain, render}

abbrev pub xml_mark : Text
xml_mark = codes "?xml version=\"1.0\" encoding=\"UTF-8\"?"

abbrev pub hsinfo : Text
hsinfo = codes "hsinfo"

-- The names in their order.
abbrev pub names : List Text
names =
    codes "TempInnen"
    ∷ codes "posJal_0"
    ∷ codes "TempHWR"
    ∷ codes "TempAussen"
    ∷ codes "Feuchte"
    ∷ codes "Wind"
    ∷ codes "Regen_1h"
    ∷ codes "Regen_24h"
    ∷ codes "Regen_7d"
    ∷ codes "Symbol"
    ∷ codes "posJal_1"
    ∷ codes "posJal_2"
    ∷ codes "posJal_3"
    ∷ codes "drvJal_0"
    ∷ codes "drvJal_1"
    ∷ codes "drvJal_2"
    ∷ codes "drvJal_3"
    ∷ codes "Orient"
    ∷ codes "HWR"
    ∷ codes "Abluft"
    ∷ codes "EmpfangWetter"
    ∷ codes "EmpfangHell"
    ∷ codes "SA"
    ∷ codes "SU"
    ∷ codes "TCPConnected"
    ∷ codes "Ventil_1"
    ∷ codes "Ventil_2"
    ∷ codes "Steckdose"
    ∷ []

-- A blank behind each element, two in front of the last one, none behind that.
abbrev pub gap : List Text → Text
gap [] = []
gap (n ∷ []) = codes "  "
gap (n ∷ m ∷ rest) = codes " "

-- The elements from number k on, with their values.
abbrev pub elements : ℕ → List Text → (ℕ → Text) → List Piece
elements k [] values = mark (b'/' ∷ hsinfo) ∷ []
elements k (n ∷ rest) values =
    mark n ∷ plain (values k) ∷ mark (b'/' ∷ n) ∷ plain (gap rest) ∷ elements (suc k) rest values

abbrev pub page : (ℕ → Text) → List Piece
page values = mark xml_mark ∷ mark hsinfo ∷ plain (codes " ") ∷ elements 0 names values

-- The shared memory with these values.
unfoldable pub shm_text : (ℕ → Text) → Text
shm_text values = render (page values)

-- The `sprintf` of `main`.
abbrev placeholder : Text
placeholder =
    codes
      "<?xml version=\"1.0\" encoding=\"UTF-8\"?><hsinfo> <TempInnen></TempInnen> <posJal_0></posJal_0> <TempHWR></TempHWR> <TempAussen></TempAussen> "
    ++ (codes
          "<Feuchte></Feuchte> <Wind></Wind> <Regen_1h></Regen_1h> <Regen_24h></Regen_24h> <Regen_7d></Regen_7d> <Symbol></Symbol> "
        ++ (codes
              "<posJal_1></posJal_1> <posJal_2></posJal_2> <posJal_3></posJal_3> <drvJal_0></drvJal_0> <drvJal_1></drvJal_1> "
            ++ (codes
                  "<drvJal_2></drvJal_2> <drvJal_3></drvJal_3> <Orient></Orient> <HWR></HWR> <Abluft></Abluft> <EmpfangWetter></EmpfangWetter> "
                ++ (codes
                      "<EmpfangHell></EmpfangHell> <SA></SA> <SU></SU> <TCPConnected></TCPConnected> <Ventil_1></Ventil_1> <Ventil_2></Ventil_2> "
                    ++ codes " <Steckdose></Steckdose></hsinfo>"))))

-- At the start all values are empty.
placeholder_lem : shm_text (λ i. []) ≡ placeholder
unfolding shm_text
placeholder_lem = refl
