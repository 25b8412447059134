-- ===== src/Constants/Images.antt =====
-- src/utils/operandi_utils/constants.py: the image that holds each OCR-D processor.
use operandi.Common.{String, Option, none, some, List, [], ◌∷◌, ◌==◌, string_eq, if◌then◌else◌}

abbrev pub Table : Type 0
Table = List (String × String)

abbrev pub processor_executable_to_image : Table
processor_executable_to_image =
    ("ocrd", "ocrd_core.sif")
    ∷ ("ocrd-dummy", "ocrd_core.sif")
    ∷ ("ocrd-tesserocr-crop", "ocrd_tesserocr.sif")
    ∷ ("ocrd-tesserocr-deskew", "ocrd_tesserocr.sif")
    ∷ ("ocrd-tesserocr-recognize", "ocrd_tesserocr.sif")
    ∷ ("ocrd-tesserocr-segment", "ocrd_tesserocr.sif")
    ∷ ("ocrd-tesserocr-segment-line", "ocrd_tesserocr.sif")
    ∷ ("ocrd-tesserocr-segment-region", "ocrd_tesserocr.sif")
    ∷ ("ocrd-tesserocr-segment-table", "ocrd_tesserocr.sif")
    ∷ ("ocrd-tesserocr-segment-word", "ocrd_tesserocr.sif")
    ∷ ("ocrd-tesserocr-fontshape", "ocrd_tesserocr.sif")
    ∷ ("ocrd-tesserocr-binarize", "ocrd_tesserocr.sif")
    ∷ ("ocrd-cis-ocropy-binarize", "ocrd_cis.sif")
    ∷ ("ocrd-cis-ocropy-denoise", "ocrd_cis.sif")
    ∷ ("ocrd-cis-ocropy-deskew", "ocrd_cis.sif")
    ∷ ("ocrd-cis-ocropy-dewarp", "ocrd_cis.sif")
    ∷ ("ocrd-cis-ocropy-segment", "ocrd_cis.sif")
    ∷ ("ocrd-cis-ocropy-resegment", "ocrd_cis.sif")
    ∷ ("ocrd-cis-ocropy-clip", "ocrd_cis.sif")
    ∷ ("ocrd-cis-ocropy-recognize", "ocrd_cis.sif")
    ∷ ("ocrd-cis-ocropy-train", "ocrd_cis.sif")
    ∷ ("ocrd-cis-align", "ocrd_cis.sif")
    ∷ ("ocrd-cis-postcorrect", "ocrd_cis.sif")
    ∷ ("ocrd-kraken-recognize", "ocrd_kraken.sif")
    ∷ ("ocrd-kraken-segment", "ocrd_kraken.sif")
    ∷ ("ocrd-kraken-binarize", "ocrd_kraken.sif")
    ∷ ("ocrd-preprocess-image", "ocrd_wrap.sif")
    ∷ ("ocrd-skimage-normalize", "ocrd_wrap.sif")
    ∷ ("ocrd-skimage-binarize", "ocrd_wrap.sif")
    ∷ ("ocrd-skimage-denoise", "ocrd_wrap.sif")
    ∷ ("ocrd-skimage-denoise-raw", "ocrd_wrap.sif")
    ∷ ("ocrd-calamari-recognize", "ocrd_calamari.sif")
    ∷ ("ocrd-olena-binarize", "ocrd_olena.sif")
    ∷ ("ocrd-dinglehopper", "ocrd_dinglehopper.sif")
    ∷ ("ocrd-eynollah-segment", "ocrd_eynollah.sif")
    ∷ ("ocrd-fileformat-transform", "ocrd_fileformat.sif")
    ∷ ("ocrd-nmalign-merge", "ocrd_nmalign.sif")
    ∷ ("ocrd-segment-extract-glyphs", "ocrd_segment.sif")
    ∷ ("ocrd-segment-extract-lines", "ocrd_segment.sif")
    ∷ ("ocrd-segment-extract-pages", "ocrd_segment.sif")
    ∷ ("ocrd-segment-extract-regions", "ocrd_segment.sif")
    ∷ ("ocrd-segment-extract-words", "ocrd_segment.sif")
    ∷ ("ocrd-segment-from-coco", "ocrd_segment.sif")
    ∷ ("ocrd-segment-from-masks", "ocrd_segment.sif")
    ∷ ("ocrd-segment-project", "ocrd_segment.sif")
    ∷ ("ocrd-segment-repair", "ocrd_segment.sif")
    ∷ ("ocrd-segment-replace-original", "ocrd_segment.sif")
    ∷ ("ocrd-segment-replace-page", "ocrd_segment.sif")
    ∷ ("ocrd-segment-replace-text", "ocrd_segment.sif")
    ∷ ("ocrd-segment-evaluate", "ocrd_segment.sif")
    ∷ ("ocrd-anybaseocr-dewarp", "ocrd_anybaseocr.sif")
    ∷ ("ocrd-anybaseocr-crop", "ocrd_anybaseocr.sif")
    ∷ ("ocrd-anybaseocr-binarize", "ocrd_anybaseocr.sif")
    ∷ ("ocrd-anybaseocr-layout-analysis", "ocrd_anybaseocr.sif")
    ∷ ("ocrd-anybaseocr-textline", "ocrd_anybaseocr.sif")
    ∷ ("ocrd-anybaseocr-tiseg", "ocrd_anybaseocr.sif")
    ∷ ("ocrd-anybaseocr-block-segmentation", "ocrd_anybaseocr.sif")
    ∷ ("ocrd-anybaseocr-deskew", "ocrd_anybaseocr.sif")
    ∷ ("ocrd-sbb-binarize", "ocrd_sbb_binarization.sif")
    ∷ ("ocrd-detectron2-segment", "ocrd_detectron2.sif")
    ∷ ("ocrd-froc-recognize", "ocrd_froc.sif")
    ∷ ("ocrd-pagetopdf", "ocrd_pagetopdf.sif")
    ∷ ("ocrd-keraslm-rate", "ocrd_keraslm.sif")
    ∷ ("ocrd-docstruct", "ocrd_docstruct.sif")
    ∷ ("ocrd-doxa-binarize", "ocrd_doxa.sif")
    ∷ ("ocrd-im6convert", "ocrd_im6convert.sif")
    ∷ ("ocrd-olahd-client", "ocrd_olahd-client.sif")
    ∷ ("ocrd-cor-asv-ann-mark", "ocrd_cor-asv-ann.sif")
    ∷ ("ocrd-cor-asv-ann-align", "ocrd_cor-asv-ann.sif")
    ∷ ("ocrd-cor-asv-ann-evaluate", "ocrd_cor-asv-ann.sif")
    ∷ ("ocrd-cor-asv-ann-join", "ocrd_cor-asv-ann.sif")
    ∷ ("ocrd-cor-asv-ann-process", "ocrd_cor-asv-ann.sif")
    ∷ []

-- `table[key]`, with `none` for a `KeyError`.
unfoldable pub lookup : String → Table → Option String
lookup k [] = none
lookup k ((j, v) ∷ t) = if k == j then some v else lookup k t

unfoldable pub image_of : String → Option String
unfolding lookup
image_of exe = lookup exe processor_executable_to_image
