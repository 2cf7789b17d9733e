-- ===== src/Vision/Detectors/Layout.antt =====
-- Which way round vision/detectors/onnx_decode.py reads the output of a head.
use caps_dash.Prelude.{ℕ, ◌<◌, ◌≡◌, ◌≢◌, arith}
use caps_dash.Vision.Detectors.{columns_of, end_to_end_columns}

-- A head of fewer channels than anchors comes out one row for each anchor, whichever axis the export
-- put first, as long as there are not six anchors; and an end-to-end output keeps its six columns,
-- however few its rows are.
pub columns_of_lem :
    (channels anchors rows : ℕ)
    → channels < anchors
    → anchors ≢ end_to_end_columns
    → (columns_of channels anchors ≡ channels)
      × (columns_of anchors channels ≡ channels)
      × (columns_of rows end_to_end_columns ≡ end_to_end_columns)
unfolding columns_of
columns_of_lem channels anchors rows fewer six = (ground arith, ground arith, ground arith)
