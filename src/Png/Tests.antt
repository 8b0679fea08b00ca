-- ===== src/Png/Tests.antt =====
-- A raster of three columns and two rows, with a stored "zlib" stream: witnesses and runs.
use ros_pre_runner.Prelude.{◌≢◌, ◌≡◌, refl, Option, none, some, [], ◌∷◌, length, arith}
use ros_pre_runner.Png.Bytes.{out_of_fuel, failed, Bytes, ok, Zlib}
use ros_pre_runner.Png.Ends.{decode_grayscale_png-Ends}
use ros_pre_runner.Png.Unfilter.{unfilter, zeros}
use ros_pre_runner.Png.Filters.{filter_image, unfilter-filter_image}
use ros_pre_runner.Png.Codec.{encode_grayscale_png, decode_grayscale_png}
use ros_pre_runner.Png.Roundtrip.{IsZlib, decode-encode, file}
use ros_pre_runner.Png.Semantics.{done, encode_semantics_png, decode_semantics_png}
use ros_pre_runner.Png.Rasters.{supported-AreClasses, decode_semantics-encode_semantics}

abbrev stored : Bytes → Option Bytes
stored [] = none
stored (x ∷ d) = some d

abbrev zlib : Zlib
zlib = record { compress = λ d. 120 ∷ d; decompress = stored; crc32 = λ d. length d }

zlib_laws : IsZlib zlib
zlib_laws = record { decompress-compress = λ d. refl; compress-nonempty = λ d. refl }

abbrev raster : Bytes
raster = 0 ∷ 1 ∷ 2 ∷ 2 ∷ 1 ∷ 1 ∷ []

abbrev raster_file : Bytes
raster_file = file zlib 3 2 (2 ∷ 1 ∷ 1 ∷ 0 ∷ 1 ∷ 2 ∷ [])

decode-encode_example :
    (png : Bytes) × (encode_grayscale_png zlib 3 2 raster ≡ ok png)
    × (decode_grayscale_png zlib png ≡ ok (3, 2, raster))
unfolding ros_pre_runner.Png.Codec.filtered_rows
decode-encode_example =
    decode-encode zlib 3 2 raster zlib_laws (omega arith) (omega arith) (omega arith) (omega arith)
      refl (omega arith)

unfilter-filter_image_example :
    unfilter (filter_image (zeros 3) ((1, 9 ∷ 7 ∷ 250 ∷ []) ∷ (4, 3 ∷ 200 ∷ 1 ∷ []) ∷ [])) 3 2
    ≡ ok (9 ∷ 7 ∷ 250 ∷ 3 ∷ 200 ∷ 1 ∷ [])
unfilter-filter_image_example =
    unfilter-filter_image 3 ((1, 9 ∷ 7 ∷ 250 ∷ []) ∷ (4, 3 ∷ 200 ∷ 1 ∷ []) ∷ []) (
      omega arith,
      refl,
      (omega arith, (omega arith, (omega arith, tt))),
      (omega arith, refl, (omega arith, (omega arith, (omega arith, tt))), tt),
    )

decode_semantics-encode_semantics_example :
    (png : Bytes) × (encode_semantics_png zlib 3 2 raster ≡ done png)
    × (decode_semantics_png zlib png 3 2 ≡ done raster)
unfolding ros_pre_runner.Png.Codec.filtered_rows ros_pre_runner.Png.Semantics.flip_rows
    ros_pre_runner.Png.Semantics.has_unsupported_values
decode_semantics-encode_semantics_example =
    decode_semantics-encode_semantics zlib 3 2 raster zlib_laws (omega arith) (omega arith)
      (omega arith) (omega arith) refl (supported-AreClasses raster refl) (omega arith)

read_back : decode_semantics_png zlib raster_file 3 2 ≡ done raster
unfolding decode_semantics_png decode_grayscale_png ros_pre_runner.Png.Codec.filtered_rows
read_back = refl

decode_grayscale_png-Ends_example : decode_grayscale_png zlib raster_file ≢ failed out_of_fuel
decode_grayscale_png-Ends_example = decode_grayscale_png-Ends zlib raster_file
